-- ===== src/Server/Submit.antt =====
-- server/src/tx/submit.rs: transactions are sent and confirmed, with retries. `sleep` is a wait and
-- changes nothing here; a loop counts the attempts that it has left.
pub mod Attempts
use ore_pool.Prelude.{ℕ, zero, suc, List, [], ◌∷◌, ◌++◌, ok, err, Result, Bool, true, false}
use ore_pool.Api.State.{Pubkey}
use ore_pool.Server.Error.{Error, internal}
use ore_pool.Server.Io.{Io, ◌>>=◌, ◌>>◌, done, fail}
use ore_pool.Server.Rpc.{
  Rpc, Signature, OutgoingInstruction, set_compute_unit_limit, set_compute_unit_price,
}
use ore_pool.Server.Validate.{Transaction}

abbrev pub max_confirmations : ℕ
max_confirmations = 10

abbrev pub max_sends : ℕ
max_sends = 5

module _ {R : Type 0} (rpc : Rpc R) where
  unfoldable pub submit_instructions :
      (signer : Pubkey) → List OutgoingInstruction → (cu_limit cu_price : ℕ) → Io R Signature
  submit_instructions signer ixs cu_limit cu_price = do
    hash ← rpc.get_latest_blockhash
    rpc.send_transaction (
        rpc.new_signed signer
          (set_compute_unit_limit cu_limit ∷ set_compute_unit_price cu_price ∷ ixs) hash)

  -- The loop of `confirm_transaction` with `left` attempts left: whether one confirmed.
  unfoldable pub confirm_loop : (left : ℕ) → Signature → R → Bool × R
  confirm_loop zero sig r = (false, r)
  confirm_loop (suc left) sig r =
      let answer = rpc.confirm_transaction_with_commitment sig r in
      elim answer.0 [
        | ok confirmed ↦ elim confirmed [
          | true ↦ (true, answer.1)
          | false ↦ confirm_loop left sig answer.1
        ]
        | err e ↦ confirm_loop left sig answer.1
      ]

  unfoldable pub confirm_transaction : Signature → Io R (Unit {0})
  confirm_transaction sig r =
      let (confirmed, r') = confirm_loop max_confirmations sig r in
      elim confirmed [
        | true ↦ (ok tt, r')
        | false ↦ (err (internal "could not confirm transaction"), r')
      ]

  unfoldable pub submit_and_confirm_instructions :
      (signer : Pubkey) → List OutgoingInstruction → (cu_limit cu_price : ℕ) → Io R Signature
  submit_and_confirm_instructions signer ixs cu_limit cu_price = do
    sig ← submit_instructions signer ixs cu_limit cu_price
    confirm_transaction sig
    done sig

  -- The loop of `submit_and_confirm_transaction` with `left` attempts left.
  unfoldable pub send_loop : (left : ℕ) → Transaction → Io R Signature
  send_loop zero tx r = (err (internal "failed to land transaction with confirmation"), r)
  send_loop (suc left) tx r =
      let sent = rpc.send_transaction tx r in
      elim sent.0 [
        | ok sig ↦
            let confirmed = confirm_transaction sig sent.1 in
            elim confirmed.0 [
              | ok done ↦ (ok sig, confirmed.1)
              | err e ↦ send_loop left tx confirmed.1
            ]
        | err e ↦ send_loop left tx sent.1
      ]

  unfoldable pub submit_and_confirm_transaction : Transaction → Io R Signature
  submit_and_confirm_transaction tx = send_loop max_sends tx
