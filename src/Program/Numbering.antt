-- ===== src/Program/Numbering.antt =====
-- The numbers that members get when they join (program/src/join.rs), under every instruction.
pub mod Growth
use ore_pool.Prelude.{
  ℕ, ◌+◌, ◌≤◌, ◌<◌, ◌≡◌, refl, sym, ◌∙◌, ok, List, [], ◌∷◌, some, arith, >>=-eq-ok, ◌==◌,
  Bool-cases, inl, inr,
}
use ore_pool.Prelude.Words.{from_le_bytes}
use ore_pool.Prelude.Store.{Store, get, put, get-put}
use ore_pool.Api.State.{Addresses, Pubkey, Pool, Member}
use ore_pool.Api.Instruction.{
  PoolInstruction, read_amount, read_claim, read_bump, read_launch, read_submit,
}
use ore_pool.Program.Runtime.{AccountInfo, Runtime, Chain, parsed}
use ore_pool.Program.User.{process_attribute, process_claim, process_join}
use ore_pool.Program.User.Attribution.{attribute_accounts-Attributes}
use ore_pool.Program.User.Claims.{claim_accounts-Claims}
use ore_pool.Program.User.Joins.{Joins, joined, join_accounts-Joins}
use ore_pool.Program.Stakes.{process_unstake}
use ore_pool.Program.Admin.Inversion.{launch_accounts-Launches, submit_accounts-Submits}
use ore_pool.Program.Admin.{process_launch, process_submit}
use ore_pool.Program.Dispatch.{run_instruction}
use ore_pool.Program.Frames.{
  process_open_share-frame, process_stake-frame, process_unstake-frame, process_launch-frame,
  process_submit-frame, process_open_stake-frame, process_commit-frame, process_attribute-frame,
  process_claim-frame,
}
use ore_pool.Program.Numbering.Growth.{
  IsNumbered, PoolsGrow, MembersStay, same-PoolsGrow, same-MembersStay, put-PoolsGrow,
  put-MembersStay, stay-IsNumbered,
}

module _ {X : Type 0} (rt : Runtime X) (ids : Addresses) where
  launch-PoolsGrow :
      (c : Chain X) {c' : Chain X} (l : List AccountInfo) (d : List ℕ)
      → process_launch rt ids c l d ≡ ok c'
      → PoolsGrow c.pools c'.pools
  unfolding process_launch
  launch-PoolsGrow c (s ∷ mi ∷ p ∷ pr ∷ op ∷ tp ∷ ap ∷ sp ∷ sl ∷ []) d h =
      let (args, e, h') = >>=-eq-ok (parsed (read_launch d)) _ h in
      let r = launch_accounts-Launches rt ids c s mi p pr op tp ap sp sl args h' in
      rw r.written (put-PoolsGrow c.pools p.key _ (λ old at. absurd (ground (arith, r.vacant))))
  launch-PoolsGrow c _ d h = λ q p at. absurd (ground arith)

  submit-PoolsGrow :
      (c : Chain X) {c' : Chain X} (l : List AccountInfo) (d : List ℕ)
      → process_submit rt ids c l d ≡ ok c'
      → PoolsGrow c.pools c'.pools
  unfolding process_submit
  submit-PoolsGrow c (s ∷ b ∷ co ∷ p ∷ pr ∷ op ∷ sp ∷ is ∷ sl ∷ rest) d h =
      let (args, e, h') = >>=-eq-ok (parsed (read_submit d)) _ h in
      let r = submit_accounts-Submits rt ids c s b co p pr op sp is sl rest args h' in
      rw r.written (put-PoolsGrow c.pools p.key _ (λ old at. ground (arith, r.pool_at)))
  submit-PoolsGrow c _ d h = λ q p at. absurd (ground arith)

  attribute-MembersStay :
      (c : Chain X) {c' : Chain X} (l : List AccountInfo) (d : List ℕ)
      → process_attribute rt ids c l d ≡ ok c'
      → MembersStay c.members c'.members
  unfolding process_attribute
  attribute-MembersStay c (s ∷ p ∷ m ∷ []) d h =
      let (bytes, e, h') = >>=-eq-ok (parsed (read_amount d)) _ h in
      let r = attribute_accounts-Attributes rt ids c s p m (from_le_bytes bytes) h' in
      rw r.written (put-MembersStay c.members m.key r.member _ r.member_at refl refl)
  attribute-MembersStay c _ d h = λ k m at. absurd (ground arith)

  claim-MembersStay :
      (c : Chain X) {c' : Chain X} (l : List AccountInfo) (d : List ℕ)
      → process_claim rt ids c l d ≡ ok c'
      → MembersStay c.members c'.members
  unfolding process_claim
  claim-MembersStay c (s ∷ b ∷ m ∷ p ∷ pr ∷ tr ∷ tt' ∷ op ∷ tp ∷ []) d h =
      let (args, e, h') = >>=-eq-ok (parsed (read_claim d)) _ h in
      let r = claim_accounts-Claims rt ids c s b m p pr tr tt' op tp args h' in
      rw r.written (put-MembersStay c.members m.key r.member _ r.member_at refl refl)
  claim-MembersStay c _ d h = λ k m at. absurd (ground arith)

  -- A new member's number is the count before it joined, which no member of the pool has.
  joined_below :
      (c : Chain X) {c' : Chain X} (a m p : AccountInfo)
      → Joins rt c c' a m p
      → IsNumbered c
      → (k : Pubkey) (n : Member) → get k c'.members ≡ some n
      → (q : Pool) × (get n.pool c'.pools ≡ some q) × (n.id < q.total_members)
  joined_below c a m p r v k n at =
      let counted = record (r.pool) { total_members = r.pool.total_members + 1 } in
      let member = joined r.pool p.key a.key in
      let read = get-put k m.key member c.members in
      elim (Bool-cases (k == m.key)) [
        | inl hit ↦ (
          counted,
          ground (
            arith,
            at,
            r.members_written,
            r.pools_written,
            read,
            get-put n.pool p.key counted c.pools,
          ),
          ground (arith, at, r.members_written, read),
        )
        | inr miss ↦
            let (q, e, lt) = v.below k n (ground (arith, at, r.members_written, read)) in
            let pools = get-put n.pool p.key counted c.pools in
            elim (Bool-cases (n.pool == p.key)) [
              | inl own ↦
                  (counted, ground (arith, r.pools_written, pools), ground (arith, e, r.pool_at))
              | inr other ↦ (q, ground (arith, r.pools_written, pools, e), lt)
            ]
      ]

  joined-IsNumbered :
      (c : Chain X) {c' : Chain X} (a m p : AccountInfo)
      → Joins rt c c' a m p
      → IsNumbered c
      → IsNumbered c'
  joined-IsNumbered c a m p r v = record {
    below = joined_below c a m p r v;
    distinct = λ j k n n' at at' pools same.
        let member = joined r.pool p.key a.key in
        let read = get-put j m.key member c.members in
        let read' = get-put k m.key member c.members in
        elim (Bool-cases (j == m.key)) [
          | inl hit ↦ elim (Bool-cases (k == m.key)) [
            | inl hit' ↦ ground arith
            | inr miss' ↦
                let (q, e, lt) = v.below k n' (ground (arith, at', r.members_written, read')) in
                absurd (ground (arith, at, r.members_written, read, e, lt, r.pool_at))
          ]
          | inr miss ↦
              let old : get j c.members ≡ some n = ground (arith, at, r.members_written, read) in
              elim (Bool-cases (k == m.key)) [
                | inl hit' ↦
                    let (q, e, lt) = v.below j n old in
                    absurd (ground (arith, at', r.members_written, read', e, lt, r.pool_at))
                | inr miss' ↦
                    v.distinct j k n n' old (ground (arith, at', r.members_written, read')) pools
                      same
              ]
        ];
  }

  join-IsNumbered :
      (c : Chain X) {c' : Chain X} (l : List AccountInfo) (d : List ℕ)
      → process_join rt ids c l d ≡ ok c'
      → IsNumbered c
      → IsNumbered c'
  unfolding process_join
  join-IsNumbered c (s ∷ a ∷ m ∷ p ∷ sp ∷ []) d h v =
      let (bump, e, h') = >>=-eq-ok (parsed (read_bump d)) _ h in
      joined-IsNumbered c a m p (join_accounts-Joins rt ids c s a m p sp bump h') v
  join-IsNumbered c _ d h v = absurd (ground arith)

  -- Under every instruction that succeeds, members of one pool keep different numbers below the
  -- count of its members.
  pub run_instruction-IsNumbered :
      (ix : PoolInstruction) (c c' : Chain X) (l : List AccountInfo) (d : List ℕ)
      → run_instruction rt ids ix c l d ≡ ok c'
      → IsNumbered c
      → IsNumbered c'
  unfolding run_instruction
  run_instruction-IsNumbered PoolInstruction.join c c' l d h v = join-IsNumbered c l d h v
  run_instruction-IsNumbered PoolInstruction.claim c c' l d h v =
      stay-IsNumbered c c' (claim-MembersStay c l d h)
        (same-PoolsGrow (process_claim-frame rt ids c l d h).0) v
  run_instruction-IsNumbered PoolInstruction.open_share c c' l d h v =
      let f = process_open_share-frame rt ids c l d h in
      stay-IsNumbered c c' (same-MembersStay f.0) (same-PoolsGrow f.1) v
  run_instruction-IsNumbered PoolInstruction.stake c c' l d h v =
      let f = process_stake-frame rt ids c l d h in
      stay-IsNumbered c c' (same-MembersStay f.0) (same-PoolsGrow f.1) v
  run_instruction-IsNumbered PoolInstruction.unstake c c' l d h v =
      let ((c₁, ev), h₁, h₂) = >>=-eq-ok (process_unstake rt ids c l d) _ h in
      let f = process_unstake-frame rt ids c l d h₁ in
      stay-IsNumbered c c' (same-MembersStay (ground (arith, h₂, f.0)))
        (same-PoolsGrow (ground (arith, h₂, f.1))) v
  run_instruction-IsNumbered PoolInstruction.attribute c c' l d h v =
      stay-IsNumbered c c' (attribute-MembersStay c l d h)
        (same-PoolsGrow (process_attribute-frame rt ids c l d h).0) v
  run_instruction-IsNumbered PoolInstruction.commit c c' l d h v =
      let f = process_commit-frame rt ids c l d h in
      stay-IsNumbered c c' (same-MembersStay f.0) (same-PoolsGrow f.1) v
  run_instruction-IsNumbered PoolInstruction.launch c c' l d h v =
      stay-IsNumbered c c' (same-MembersStay (process_launch-frame rt ids c l d h).0)
        (launch-PoolsGrow c l d h) v
  run_instruction-IsNumbered PoolInstruction.open_stake c c' l d h v =
      let f = process_open_stake-frame rt ids c l d h in
      stay-IsNumbered c c' (same-MembersStay f.0) (same-PoolsGrow f.1) v
  run_instruction-IsNumbered PoolInstruction.submit c c' l d h v =
      stay-IsNumbered c c' (same-MembersStay (process_submit-frame rt ids c l d h).0)
        (submit-PoolsGrow c l d h) v
