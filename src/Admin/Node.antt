-- ===== src/Admin/Node.antt =====
-- What the commands of admin/src rely on of a Solana node, what they print, and the calls of the
-- node as the commands make them.
use ore_pool.Prelude.{ℕ, List, [], ◌∷◌, ◌++◌, Option, Result, ok, ok_or}
use ore_pool.Prelude.Fallible.{Fallible, ◌>>=◌}
use ore_pool.Api.State.{Pubkey, Pool, Member}
use ore_pool.Api.Sdk.{BuiltInstruction}
use ore_pool.Admin.Error.{Error, solana_client, solaan_program}

-- `ore_api::state::Proof`, of which the commands only print the whole.
abbrev pub ProofData : Type 0
ProofData = List ℕ

-- A call of the node returns nothing where it fails. A transaction has one instruction, which the
-- keypair pays for and signs, and a blockhash.
pub record Node (R : Type 0) : Type 0 where
  pub fetch : Pubkey → R → Option (List ℕ) × R
  pub get_latest_blockhash : R → Option ℕ × R
  pub send_transaction : (payer : Pubkey) → BuiltInstruction → (hash : ℕ) → R → Option ℕ × R
  -- what else happens in so many seconds
  pub sleep : ℕ → R → R
  -- steel's `try_from_bytes` of the account types
  pub pool_from_bytes : List ℕ → Option Pool
  pub member_from_bytes : List ℕ → Option Member
  pub proof_from_bytes : List ℕ → Option ProofData

-- What `println!` is given.
pub data Line : Type 0 where
  pool_address member_address proof_address : Pubkey → Line
  pool : Pool → Line
  member : Member → Line
  proof : ProofData → Line
  signature : ℕ → Line
  sleeping fetching parse_error : Line

pub record AdminState (R : Type 0) : Type 0 where
  pub outside : R
  pub printed : List Line

abbrev pub print : {R : Type 0} → Line → Fallible Error (AdminState R) (Unit {0})
print line s = (ok tt, record s { printed = s.printed ++ line ∷ [] })

abbrev pub decoded : {A : Type 0} → Option A → Result Error A
decoded o = ok_or o solaan_program

-- A call of the node, with `ClientError` where it fails.
abbrev pub from_node : {R A : Type 0} → (R → Option A × R) → Fallible Error (AdminState R) A
from_node call s =
    (ok_or (call s.outside).0 solana_client, record s { outside = (call s.outside).1 })

abbrev pub get_account_data :
    {R : Type 0} → Node R → Pubkey → Fallible Error (AdminState R) (List ℕ)
get_account_data node pda = from_node (node.fetch pda)

-- `new_with_payer`, `get_latest_blockhash`, `sign` and `send_transaction`, which `init` and
-- `open_stake` both write out.
unfoldable pub send :
    {R : Type 0} → Node R → Pubkey → BuiltInstruction → Fallible Error (AdminState R) ℕ
send node keypair ix = do
  hash ← from_node node.get_latest_blockhash
  from_node (node.send_transaction keypair ix hash)
