-- ===== src/Program/Earnings.antt =====
-- The balance of a member over any history of instructions.
use ore_pool.Prelude.{
  ℕ, ◌+◌, ◌-◌, ◌≤◌, ◌≡◌, ok, List, [], ◌∷◌, Option, none, some, arith, >>=-eq-ok, ◌==◌,
  if◌then◌else◌,
}
use ore_pool.Prelude.Words.{from_le_bytes}
use ore_pool.Prelude.Store.{Store, get, get-put}
use ore_pool.Api.State.{Addresses, Pubkey, Member}
use ore_pool.Api.Instruction.{PoolInstruction, read_amount, read_claim, read_bump}
use ore_pool.Program.Runtime.{AccountInfo, Runtime, Chain, parsed}
use ore_pool.Program.User.{process_attribute, process_claim, process_join}
use ore_pool.Program.User.Attribution.{attributed, attribute_accounts-Attributes}
use ore_pool.Program.User.Claims.{claim_accounts-Claims}
use ore_pool.Program.User.Joins.{joined, join_accounts-Joins}
use ore_pool.Program.Stakes.{process_unstake}
use ore_pool.Program.Dispatch.{run_instruction}
use ore_pool.Program.Frames.{
  process_open_share-frame, process_stake-frame, process_unstake-frame, process_launch-frame,
  process_submit-frame, process_open_stake-frame, process_commit-frame,
}

-- What a claim on the member account `k` asks for.
abbrev pub claim_of : Pubkey → PoolInstruction → List AccountInfo → List ℕ → ℕ
claim_of k PoolInstruction.claim (s ∷ b ∷ m ∷ rest) d = elim (read_claim d) [
  | none ↦ 0
  | some args ↦ if k == m.key then from_le_bytes args.amount else 0
]
claim_of k _ _ d = 0

-- An attribution does not lower the lifetime earnings of its member.
abbrev pub NotLowered :
    {X : Type 0} → Chain X → PoolInstruction → List AccountInfo → List ℕ → Type 0
NotLowered c PoolInstruction.attribute (s ∷ p ∷ m ∷ []) d =
    (bytes : List ℕ) (member : Member)
    → read_amount d ≡ some bytes
    → get m.key c.members ≡ some member
    → member.total_balance ≤ from_le_bytes bytes
NotLowered c _ _ d = Unit {0}

-- What may be claimed and what was claimed make up the lifetime earnings.
abbrev pub IsBalanced : Option Member → ℕ → Type 0
IsBalanced none paid = paid ≡ 0
IsBalanced (some m) paid = m.balance + paid ≡ m.total_balance

module _ {X : Type 0} (rt : Runtime X) (ids : Addresses) (k : Pubkey) where
  attribute-IsBalanced :
      (c : Chain X) {c' : Chain X} (l : List AccountInfo) (d : List ℕ) (paid : ℕ)
      → process_attribute rt ids c l d ≡ ok c'
      → NotLowered c PoolInstruction.attribute l d
      → IsBalanced (get k c.members) paid
      → IsBalanced (get k c'.members) paid
  unfolding process_attribute
  attribute-IsBalanced c (s ∷ p ∷ m ∷ []) d paid h up b =
      let (bytes, e, h') = >>=-eq-ok (parsed (read_amount d)) _ h in
      let r = attribute_accounts-Attributes rt ids c s p m (from_le_bytes bytes) h' in
      let climbs = up bytes r.member (ground arith) r.member_at in
      rw (r.written) (
        ground (
          arith,
          climbs,
          r.member_at,
          get-put k m.key (attributed r.member (from_le_bytes bytes)) c.members,
        ))
  attribute-IsBalanced c _ d paid h up b = ground arith

  claim-IsBalanced :
      (c : Chain X) {c' : Chain X} (l : List AccountInfo) (d : List ℕ) (paid : ℕ)
      → process_claim rt ids c l d ≡ ok c'
      → IsBalanced (get k c.members) paid
      → IsBalanced (get k c'.members) (paid + claim_of k PoolInstruction.claim l d)
  unfolding process_claim
  claim-IsBalanced c (s ∷ b ∷ m ∷ p ∷ pr ∷ tr ∷ tt' ∷ op ∷ tp ∷ []) d paid h bal =
      let (args, e, h') = >>=-eq-ok (parsed (read_claim d)) _ h in
      let r = claim_accounts-Claims rt ids c s b m p pr tr tt' op tp args h' in
      let put_back =
        get-put k m.key
          (record (r.member) { balance = r.member.balance - from_le_bytes args.amount })
          c.members in
      rw r.written (ground (arith, e, r.member_at, r.covered, put_back))
  claim-IsBalanced c _ d paid h bal = ground arith

  join-IsBalanced :
      (c : Chain X) {c' : Chain X} (l : List AccountInfo) (d : List ℕ) (paid : ℕ)
      → process_join rt ids c l d ≡ ok c'
      → IsBalanced (get k c.members) paid
      → IsBalanced (get k c'.members) paid
  unfolding process_join
  join-IsBalanced c (s ∷ a ∷ m ∷ p ∷ sp ∷ []) d paid h bal =
      let (bump, e, h') = >>=-eq-ok (parsed (read_bump d)) _ h in
      let r = join_accounts-Joins rt ids c s a m p sp bump h' in
      rw r.members_written
        (ground (arith, r.vacant, get-put k m.key (joined r.pool p.key a.key) c.members))
  join-IsBalanced c _ d paid h bal = ground arith

  -- A handler that leaves the members alone, and claims nothing.
  same-IsBalanced :
      {s s' : Store Member} (paid : ℕ)
      → s' ≡ s
      → IsBalanced (get k s) paid
      → IsBalanced (get k s') (paid + 0)
  same-IsBalanced paid e bal = rw e (ground (arith, bal))

  pub run_instruction-IsBalanced :
      (ix : PoolInstruction) (c : Chain X) {c' : Chain X} (l : List AccountInfo) (d : List ℕ)
      (paid : ℕ)
      → run_instruction rt ids ix c l d ≡ ok c'
      → NotLowered c ix l d
      → IsBalanced (get k c.members) paid
      → IsBalanced (get k c'.members) (paid + claim_of k ix l d)
  unfolding run_instruction
  run_instruction-IsBalanced PoolInstruction.join c l d paid h up b =
      ground (arith, join-IsBalanced c l d paid h b)
  run_instruction-IsBalanced PoolInstruction.claim c l d paid h up b =
      claim-IsBalanced c l d paid h b
  run_instruction-IsBalanced PoolInstruction.open_share c l d paid h up b =
      same-IsBalanced paid (process_open_share-frame rt ids c l d h).0 b
  run_instruction-IsBalanced PoolInstruction.stake c l d paid h up b =
      same-IsBalanced paid (process_stake-frame rt ids c l d h).0 b
  run_instruction-IsBalanced PoolInstruction.unstake c l d paid h up b =
      let ((c₁, e), h₁, h₂) = >>=-eq-ok (process_unstake rt ids c l d) _ h in
      same-IsBalanced paid (ground (arith, h₂, (process_unstake-frame rt ids c l d h₁).0)) b
  run_instruction-IsBalanced PoolInstruction.attribute c l d paid h up b =
      ground (arith, attribute-IsBalanced c l d paid h up b)
  run_instruction-IsBalanced PoolInstruction.commit c l d paid h up b =
      same-IsBalanced paid (process_commit-frame rt ids c l d h).0 b
  run_instruction-IsBalanced PoolInstruction.launch c l d paid h up b =
      same-IsBalanced paid (process_launch-frame rt ids c l d h).0 b
  run_instruction-IsBalanced PoolInstruction.open_stake c l d paid h up b =
      same-IsBalanced paid (process_open_stake-frame rt ids c l d h).0 b
  run_instruction-IsBalanced PoolInstruction.submit c l d paid h up b =
      same-IsBalanced paid (process_submit-frame rt ids c l d h).0 b

-- The histories of instructions that succeed, a failed transaction leaving no trace, in which no
-- attribution lowers lifetime earnings. The number is what was claimed for the member `k` on the
-- way.
pub data History {X : Type 0} (rt : Runtime X) (ids : Addresses) (k : Pubkey) (start : Chain X)
    : Chain X → ℕ → Type 0 where
  here : History rt ids k start start 0
  next :
      {c c' : Chain X} {paid : ℕ}
      → History rt ids k start c paid
      → (ix : PoolInstruction) (l : List AccountInfo) (d : List ℕ)
      → run_instruction rt ids ix c l d ≡ ok c'
      → NotLowered c ix l d
      → {paid' : ℕ} → paid' ≡ paid + claim_of k ix l d
      → History rt ids k start c' paid'

-- Whatever instructions run, in any order: what a member has claimed and what it may still claim
-- make up the lifetime earnings attributed to it, if that held at the start with nothing claimed
-- and no attribution on the way lowered lifetime earnings.
pub History-IsBalanced :
    {X : Type 0} (rt : Runtime X) (ids : Addresses) (k : Pubkey) (start : Chain X) {c : Chain X}
    {paid : ℕ}
    → IsBalanced (get k start.members) 0
    → History rt ids k start c paid
    → IsBalanced (get k c.members) paid
History-IsBalanced rt ids k start b here = b
History-IsBalanced rt ids k start b (next {c} {c'} {paid} past ix l d h up e) = rw e (
    run_instruction-IsBalanced rt ids k ix c l d paid h up
      (History-IsBalanced rt ids k start b past))
