-- ===== src/Program/Totals.antt =====
-- The lifetime earnings of the members: only an attribution changes any.
use ore_pool.Prelude.{
  ℕ, ◌-◌, ◌≡◌, ◌≢◌, refl, Bool-cases, inl, inr, ok, List, [], ◌∷◌, some, arith, >>=-eq-ok, ◌==◌,
}
use ore_pool.Prelude.Words.{from_le_bytes}
use ore_pool.Prelude.Store.{get, get-put}
use ore_pool.Api.State.{Addresses, Pubkey, Member}
use ore_pool.Api.Instruction.{PoolInstruction, read_claim, read_bump}
use ore_pool.Program.Runtime.{AccountInfo, Runtime, Chain, parsed}
use ore_pool.Program.User.{process_claim, process_join}
use ore_pool.Program.User.Claims.{claim_accounts-Claims}
use ore_pool.Program.User.Joins.{joined, join_accounts-Joins}
use ore_pool.Program.Stakes.{process_unstake}
use ore_pool.Program.Dispatch.{run_instruction}
use ore_pool.Program.Frames.{
  process_open_share-frame, process_stake-frame, process_unstake-frame, process_launch-frame,
  process_submit-frame, process_open_stake-frame, process_commit-frame,
}

-- The chain has these lifetime earnings for the member account at the address.
abbrev pub Shows : {X : Type 0} → Chain X → Pubkey → ℕ → Type 0
Shows c a t = (m : Member) × (get a c.members ≡ some m) × (m.total_balance ≡ t)

module _ {X : Type 0} (rt : Runtime X) (ids : Addresses) (a : Pubkey) (t : ℕ) where
  claim-Shows :
      (c : Chain X) {c' : Chain X} (l : List AccountInfo) (d : List ℕ)
      → process_claim rt ids c l d ≡ ok c'
      → Shows c a t
      → Shows c' a t
  unfolding process_claim
  claim-Shows c (s ∷ b ∷ m ∷ p ∷ pr ∷ tr ∷ tt' ∷ op ∷ tp ∷ []) d h (mem, at, total) =
      let (args, e, h') = >>=-eq-ok (parsed (read_claim d)) _ h in
      let r = claim_accounts-Claims rt ids c s b m p pr tr tt' op tp args h' in
      let left = record (r.member) { balance = r.member.balance - from_le_bytes args.amount } in
      let put_back = get-put a m.key left c.members in
      elim (Bool-cases (a == m.key)) [
        | inl here ↦
            (left, ground (arith, r.written, put_back, here), ground (arith, r.member_at, at, here))
        | inr elsewhere ↦ (mem, ground (arith, r.written, put_back, elsewhere), total)
      ]
  claim-Shows c _ d h shown = ground arith

  join-Shows :
      (c : Chain X) {c' : Chain X} (l : List AccountInfo) (d : List ℕ)
      → process_join rt ids c l d ≡ ok c'
      → Shows c a t
      → Shows c' a t
  unfolding process_join
  join-Shows c (s ∷ au ∷ m ∷ p ∷ sp ∷ []) d h (mem, at, total) =
      let (bump, e, h') = >>=-eq-ok (parsed (read_bump d)) _ h in
      let r = join_accounts-Joins rt ids c s au m p sp bump h' in
      (
        mem,
        ground (
          arith,
          r.members_written,
          r.vacant,
          at,
          get-put a m.key (joined r.pool p.key au.key) c.members,
        ),
        total,
      )
  join-Shows c _ d h shown = ground arith

  same-Shows : (c c' : Chain X) → c'.members ≡ c.members → Shows c a t → Shows c' a t
  same-Shows c c' e (m, at, total) = (m, rw e at, total)

  pub run_instruction-Shows :
      (ix : PoolInstruction) (c : Chain X) {c' : Chain X} (l : List AccountInfo) (d : List ℕ)
      → ix ≢ PoolInstruction.attribute
      → run_instruction rt ids ix c l d ≡ ok c'
      → Shows c a t
      → Shows c' a t
  unfolding run_instruction
  run_instruction-Shows PoolInstruction.join c {c'} l d other h shown = join-Shows c l d h shown
  run_instruction-Shows PoolInstruction.claim c {c'} l d other h shown = claim-Shows c l d h shown
  run_instruction-Shows PoolInstruction.open_share c {c'} l d other h shown =
      same-Shows c c' (process_open_share-frame rt ids c l d h).0 shown
  run_instruction-Shows PoolInstruction.stake c {c'} l d other h shown =
      same-Shows c c' (process_stake-frame rt ids c l d h).0 shown
  run_instruction-Shows PoolInstruction.unstake c {c'} l d other h shown =
      let ((c₁, e), h₁, h₂) = >>=-eq-ok (process_unstake rt ids c l d) _ h in
      same-Shows c c' (ground (arith, h₂, (process_unstake-frame rt ids c l d h₁).0)) shown
  run_instruction-Shows PoolInstruction.attribute c {c'} l d other h shown = absurd (other refl)
  run_instruction-Shows PoolInstruction.commit c {c'} l d other h shown =
      same-Shows c c' (process_commit-frame rt ids c l d h).0 shown
  run_instruction-Shows PoolInstruction.launch c {c'} l d other h shown =
      same-Shows c c' (process_launch-frame rt ids c l d h).0 shown
  run_instruction-Shows PoolInstruction.open_stake c {c'} l d other h shown =
      same-Shows c c' (process_open_stake-frame rt ids c l d h).0 shown
  run_instruction-Shows PoolInstruction.submit c {c'} l d other h shown =
      same-Shows c c' (process_submit-frame rt ids c l d h).0 shown
