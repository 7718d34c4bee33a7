-- ===== src/Server/Attribution/Steps.antt =====
-- The steps of the pool that touch the records of members: of its server (server/src/database.rs,
-- aggregator.rs, contributor.rs) and of its program (program/src).
use ore_pool.Prelude.{
  ℕ, Result, ◌≡◌, ◌≢◌, refl, ok, List, [], ◌∷◌, ◌++◌, Bool-cases, arith, All, append_All, false,
  inl, inr, ◌==◌, some, Bool,
}
use ore_pool.Prelude.Store.{get}
use ore_pool.Api.State.{Addresses, Pubkey, Member, pool_pda, member_pda}
use ore_pool.Api.Instruction.{PoolInstruction}
use ore_pool.Program.Runtime.{AccountInfo, Runtime, Chain}
use ore_pool.Program.Dispatch.{run_instruction}
use ore_pool.Server.Aggregator.{Aggregator}
use ore_pool.Server.Error.{Error}
use ore_pool.Server.Rewards.{Rewards, Distribution, distribute_rewards}
use ore_pool.Server.Rewards.Owed.{same-IsUnique, IsWriting}
use ore_pool.Server.Database.{
  MemberRow, Members, is_in, is_taken, new_row, read_member, write_new_member, write_synced_members,
}
use ore_pool.Server.Database.Members.{read_appended}
use ore_pool.Server.Attribution.Current.{
  IsCurrent, read_member_All, read_member-IsCurrent, Ends_All,
}
use ore_pool.Server.Attribution.Round.{addresses, IsUnique}
use ore_pool.Server.Attribution.Landing.{
  Fate, Ends, land_task, land_tasks, round_tasks, IsMirrored, IsPlaced,
}
use ore_pool.Server.Attribution.Mirror.{
  land_task-members, land_task-IsMirrored, land_tasks-IsMirrored, round_tasks-kept,
}
use ore_pool.Server.Attribution.Crediting.{distribute_rewards-Unmarks}

write_synced_members-addresses :
    (rs : Members) (marked : List Pubkey)
    → addresses (write_synced_members rs marked) ≡ addresses rs
unfolding write_synced_members
write_synced_members-addresses [] marked = refl
write_synced_members-addresses (r ∷ rs) marked =
    ground (arith, write_synced_members-addresses rs marked)

not_taken :
    (row : MemberRow) (a : Pubkey) (rs : Members)
    → is_in a (addresses rs) ≡ false
    → row.address ≢ a
    → is_in a (addresses (rs ++ row ∷ [])) ≡ false
not_taken row a [] h other = ground (arith, other)
not_taken row a (r ∷ rs) h other = ground (arith, h, not_taken row a rs (ground arith) other)

append-IsUnique :
    (row : MemberRow) (rs : Members)
    → is_taken row rs ≡ false
    → IsUnique rs
    → IsUnique (rs ++ row ∷ [])
append-IsUnique row [] fresh u = (refl, tt)
append-IsUnique row (r ∷ rs) fresh u = (
  not_taken row r.address rs u.0 (ground (arith, fresh)),
  append-IsUnique row rs (ground (arith, fresh)) u.1,
)

module _ {X : Type 0} (rt : Runtime X) (ids : Addresses) (operator : Pubkey) where
  -- Unique addresses, rows of the operator's pool, and marks that are true of the chain.
  pub record IsInStep (c : Chain X) (rs : Members) : Type 0 where
    pub unique : IsUnique rs
    pub placed : All (IsPlaced rt ids operator) rs
    pub mirrored : IsMirrored rt ids operator c rs

  write_synced_members-IsPlaced :
      (rs : Members) (marked : List Pubkey)
      → All (IsPlaced rt ids operator) rs
      → All (IsPlaced rt ids operator) (write_synced_members rs marked)
  unfolding write_synced_members
  write_synced_members-IsPlaced [] marked h = tt
  write_synced_members-IsPlaced (r ∷ rs) marked (h, hs) =
      (ground (arith, h), write_synced_members-IsPlaced rs marked hs)

  write_synced_members-kept :
      (rs : Members) (marked : List Pubkey)
      → IsUnique rs
      → All (IsPlaced rt ids operator) rs
      → IsUnique (write_synced_members rs marked)
        × All (IsPlaced rt ids operator) (write_synced_members rs marked)
  write_synced_members-kept rs marked u p = (
    same-IsUnique rs (write_synced_members rs marked) (write_synced_members-addresses rs marked) u,
    write_synced_members-IsPlaced rs marked p,
  )

  land_task-kept :
      (fate : Fate) (c : Chain X) (b : List MemberRow) (rs : Members)
      → IsUnique rs
      → All (IsPlaced rt ids operator) rs
      → IsUnique (land_task rt ids operator fate c b rs).1
        × All (IsPlaced rt ids operator) (land_task rt ids operator fate c b rs).1
  land_task-kept fate c b rs u p = elim (land_task-members rt ids operator fate c b rs) [
    | inl same ↦ rw same (u, p)
    | inr marked ↦ rw marked (write_synced_members-kept rs (addresses b) u p)
  ]

  land_tasks-kept :
      (fate : List MemberRow → Fate) (c : Chain X) (bs : List (List MemberRow)) (rs : Members)
      → IsUnique rs
      → All (IsPlaced rt ids operator) rs
      → IsUnique (land_tasks rt ids operator fate c bs rs).1
        × All (IsPlaced rt ids operator) (land_tasks rt ids operator fate c bs rs).1
  unfolding land_tasks
  land_tasks-kept fate c [] rs u p = (u, p)
  land_tasks-kept fate c (b ∷ bs) rs u p =
      let (u', p') = land_task-kept (fate b) c b rs u p in
      let (c', marked) = land_task rt ids operator (fate b) c b rs in
      land_tasks-kept fate c' bs marked u' p'

  -- A step of the pool: of its server, or of its program on the chain. `settled` is `update_balance`
  -- with a transaction that makes the member's attribution.
  pub data PoolStep : Chain X → Members → Chain X → Members → Type 0 where
    rewarded :
        {c : Chain X} {rs : Members} (write : Members → Distribution → Result Error Members)
        (agg : Aggregator) (authority : Pubkey) (r : Rewards) (oc sc : ℕ)
        → IsWriting write
        → PoolStep c rs c (distribute_rewards ids write agg rs authority r oc sc).2
    attributed :
        {c : Chain X} {rs : Members} (fate : List MemberRow → Fate) (tasks : List (List MemberRow))
        → Ends tasks (round_tasks rs)
        → PoolStep c rs
            (land_tasks rt ids operator fate c tasks rs).0
            (land_tasks rt ids operator fate c tasks rs).1
    settled :
        {c : Chain X} {rs : Members} (fate : Fate) (a : Pubkey) (r : MemberRow)
        → read_member rs a ≡ ok r
        → PoolStep c rs
            (land_task rt ids operator fate c (r ∷ []) rs).0
            (land_task rt ids operator fate c (r ∷ []) rs).1
    registered :
        {c : Chain X} {rs rs' : Members} (m : Member) (approved : Bool) {row : MemberRow}
        → get (member_pda ids m.authority (pool_pda ids operator).0).0 c.members ≡ some m
        → m.pool ≡ (pool_pda ids operator).0
        → m.total_balance ≡ 0
        → write_new_member ids rs m approved ≡ ok (row, rs')
        → PoolStep c rs c rs'
    ran :
        {c c' : Chain X} {rs : Members} (ix : PoolInstruction) (l : List AccountInfo) (d : List ℕ)
        → ix ≢ PoolInstruction.attribute
        → run_instruction rt ids ix c l d ≡ ok c'
        → PoolStep c rs c' rs
    attributed_elsewhere :
        {c c' : Chain X} {rs : Members} (signer_info pool_info member_info : AccountInfo)
        (d : List ℕ)
        → is_in member_info.key (addresses rs) ≡ false
        → run_instruction rt ids PoolInstruction.attribute c
            (signer_info ∷ pool_info ∷ member_info ∷ [])
            d
          ≡ ok c'
        → PoolStep c rs c' rs

  pub rewarded-IsInStep :
      (write : Members → Distribution → Result Error Members)
      → IsWriting write
      → (c : Chain X) (rs : Members) (agg : Aggregator) (authority : Pubkey) (r : Rewards)
        (oc sc : ℕ)
      → IsInStep c rs
      → IsInStep c (distribute_rewards ids write agg rs authority r oc sc).2
  rewarded-IsInStep write writes c rs agg authority r oc sc h =
      let w = distribute_rewards-Unmarks rt ids operator write writes agg rs authority r oc sc in
      record {
        unique = same-IsUnique rs _ w.same h.unique;
        placed = w.placed h.placed;
        mirrored = λ a s at marked. h.mirrored a s (w.read a s at marked) marked;
      }

  pub registered-IsInStep :
      (c : Chain X) (rs : Members) {rs' : Members} (m : Member) (approved : Bool) {row : MemberRow}
      → get (member_pda ids m.authority (pool_pda ids operator).0).0 c.members ≡ some m
      → m.pool ≡ (pool_pda ids operator).0
      → m.total_balance ≡ 0
      → write_new_member ids rs m approved ≡ ok (row, rs')
      → IsInStep c rs
      → IsInStep c rs'
  unfolding write_new_member
  registered-IsInStep c rs {rs'} m approved {row} at pool zero_yet e h =
      elim (Bool-cases (is_taken (new_row ids m approved) rs)) [
        | inl taken ↦ absurd (ground (arith, e, taken))
        | inr fresh ↦
            let new = new_row ids m approved in
            let last : rs' ≡ rs ++ new ∷ [] = ground (arith, e, fresh) in
            record {
              unique = rw last (append-IsUnique new rs fresh h.unique);
              placed = rw last (
                  append_All (IsPlaced rt ids operator) rs (new ∷ []) h.placed
                    ((ground (arith, pool), omega arith), tt));
              mirrored = λ a s read marked. elim (Bool-cases (new.address == a)) [
                | inl here ↦ (
                  m,
                  ground (arith, at, pool, here),
                  ground (arith, zero_yet, last, read_appended rs new a fresh, read, here),
                )
                | inr elsewhere ↦
                    h.mirrored a s
                      (ground (arith, last, read_appended rs new a fresh, read, elsewhere)) marked
              ];
            }
      ]

  pub attributed-IsInStep :
      (fate : List MemberRow → Fate) (c : Chain X) (rs : Members) (tasks : List (List MemberRow))
      → Ends tasks (round_tasks rs)
      → IsInStep c rs
      → IsInStep
          (land_tasks rt ids operator fate c tasks rs).0
          (land_tasks rt ids operator fate c tasks rs).1
  attributed-IsInStep fate c rs tasks ends h =
      let (placed, current) = round_tasks-kept rt ids operator rs h.unique h.placed in
      let kept = land_tasks-kept fate c tasks rs h.unique h.placed in
      record {
        unique = kept.0;
        placed = kept.1;
        mirrored =
            land_tasks-IsMirrored rt ids operator fate c tasks rs
              (Ends_All (All (IsPlaced rt ids operator)) ends placed)
              (Ends_All (All (IsCurrent rs)) ends current) h.mirrored;
      }

  pub settled-IsInStep :
      (fate : Fate) (c : Chain X) (rs : Members) (a : Pubkey) (r : MemberRow)
      → read_member rs a ≡ ok r
      → IsInStep c rs
      → IsInStep
          (land_task rt ids operator fate c (r ∷ []) rs).0
          (land_task rt ids operator fate c (r ∷ []) rs).1
  settled-IsInStep fate c rs a r e h =
      let (placed, at, _) = read_member_All (IsPlaced rt ids operator) rs a r h.placed e in
      let kept = land_task-kept fate c (r ∷ []) rs h.unique h.placed in
      record {
        unique = kept.0;
        placed = kept.1;
        mirrored =
            land_task-IsMirrored rt ids operator fate c (r ∷ []) rs (placed, tt)
              (read_member-IsCurrent rs a r e at, tt) h.mirrored;
      }
