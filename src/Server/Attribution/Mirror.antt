-- ===== src/Server/Attribution/Mirror.antt =====
-- A round of attributions (server/src/database.rs) keeps the marked records of the database true of
-- the chain.
use ore_pool.Prelude.{
  arith, ◌≡◌, refl, ok, List, [], ◌∷◌, Result-cases, min, length, All, map_All, sym, ap, ◌∙◌, inl,
  inr, ◌⊎◌,
}
use ore_pool.Api.State.{Addresses, Pubkey}
use ore_pool.Program.Runtime.{Runtime, Chain}
use ore_pool.Server.Aggregator.{as_u64}
use ore_pool.Server.Database.{MemberRow, Members, write_synced_members}
use ore_pool.Server.Attribution.{unsynced, num_attributions_per_tx}
use ore_pool.Server.Attribution.Round.{addresses, IsUnique}
use ore_pool.Server.Attribution.Landing.{
  Fate, deliver_all, instructions, land_task, land_tasks, round_tasks, IsMirrored, IsPlaced,
  deliver_all-Shows,
}
use ore_pool.Server.Attribution.Current.{
  IsCurrent, read_member-write_synced_members, IsCurrent-write_synced_members, IsRow,
  unsynced-IsRow, unsynced_All, full_buffers_All,
}

module _ {X : Type 0} (rt : Runtime X) (ids : Addresses) (operator : Pubkey) where
  deliver_all-IsMirrored :
      (c : Chain X) {c' : Chain X} (b : List MemberRow) (members : Members)
      → All (IsPlaced rt ids operator) b
      → All (IsCurrent members) b
      → deliver_all rt ids operator c (instructions rt ids operator b) ≡ ok c'
      → IsMirrored rt ids operator c members
      → IsMirrored rt ids operator c' (write_synced_members members (addresses b))
  deliver_all-IsMirrored c b members placed current h mirrored a r e synced =
      let w = read_member-write_synced_members members (addresses b) a r e in
      let same =
        map_All (IsCurrent members)
          (λ s. s.address ≡ a → as_u64 s.total_balance ≡ as_u64 r.total_balance) b
          (λ s known at. sym (known w.before (rw at w.was)) ∙ ap as_u64 (sym w.total)) current in
      deliver_all-Shows rt ids operator c b a _ same placed h (elim (w.mark synced) [
        | inl before ↦ inl (rw w.total (mirrored a w.before w.was before))
        | inr among ↦ inr among
      ])

  unmarked-IsMirrored :
      (c : Chain X) {c' : Chain X} (b : List MemberRow) (members : Members)
      → All (IsPlaced rt ids operator) b
      → All (IsCurrent members) b
      → deliver_all rt ids operator c (instructions rt ids operator b) ≡ ok c'
      → IsMirrored rt ids operator c members
      → IsMirrored rt ids operator c' members
  unmarked-IsMirrored c b members placed current h mirrored a r e synced =
      let same =
        map_All (IsCurrent members)
          (λ s. s.address ≡ a → as_u64 s.total_balance ≡ as_u64 r.total_balance) b
          (λ s known at. sym (known r (rw at e))) current in
      deliver_all-Shows rt ids operator c b a _ same placed h (inl (mirrored a r e synced))

  pub land_task-IsMirrored :
      (fate : Fate) (c : Chain X) (b : List MemberRow) (members : Members)
      → All (IsPlaced rt ids operator) b
      → All (IsCurrent members) b
      → IsMirrored rt ids operator c members
      → IsMirrored rt ids operator
          (land_task rt ids operator fate c b members).0
          (land_task rt ids operator fate c b members).1
  unfolding land_task
  land_task-IsMirrored Fate.dropped c b members placed current h = h
  land_task-IsMirrored Fate.unheard c b members placed current h =
      elim (Result-cases (deliver_all rt ids operator c (instructions rt ids operator b))) [
        | inl (c', e) ↦ rw (land_task, e) (unmarked-IsMirrored c b members placed current e h)
        | inr (x, e) ↦ rw (land_task, e) h
      ]
  land_task-IsMirrored Fate.confirmed c b members placed current h =
      elim (Result-cases (deliver_all rt ids operator c (instructions rt ids operator b))) [
        | inl (c', e) ↦ rw (land_task, e) (deliver_all-IsMirrored c b members placed current e h)
        | inr (x, e) ↦ rw (land_task, e) h
      ]

  -- A task leaves the table or marks the batch.
  pub land_task-members :
      (fate : Fate) (c : Chain X) (b : List MemberRow) (members : Members)
      → ((land_task rt ids operator fate c b members).1 ≡ members)
        ⊎ ((land_task rt ids operator fate c b members).1
            ≡ write_synced_members members (addresses b))
  unfolding land_task
  land_task-members Fate.dropped c b members = inl refl
  land_task-members Fate.unheard c b members =
      elim (Result-cases (deliver_all rt ids operator c (instructions rt ids operator b))) [
        | inl (c', e) ↦ inl (ground (arith, e))
        | inr (x, e) ↦ inl (ground (arith, e))
      ]
  land_task-members Fate.confirmed c b members =
      elim (Result-cases (deliver_all rt ids operator c (instructions rt ids operator b))) [
        | inl (c', e) ↦ inr (ground (arith, e))
        | inr (x, e) ↦ inl (ground (arith, e))
      ]

  land_task-IsCurrent :
      (fate : Fate) (c : Chain X) (b : List MemberRow) (members : Members) (r : MemberRow)
      → IsCurrent members r
      → IsCurrent (land_task rt ids operator fate c b members).1 r
  land_task-IsCurrent fate c b members r h = elim (land_task-members fate c b members) [
    | inl same ↦ rw same h
    | inr marked ↦ rw marked (IsCurrent-write_synced_members members (addresses b) r h)
  ]

  pub land_tasks-IsMirrored :
      (fate : List MemberRow → Fate) (c : Chain X) (bs : List (List MemberRow)) (members : Members)
      → All (All (IsPlaced rt ids operator)) bs
      → All (All (IsCurrent members)) bs
      → IsMirrored rt ids operator c members
      → IsMirrored rt ids operator
          (land_tasks rt ids operator fate c bs members).0
          (land_tasks rt ids operator fate c bs members).1
  unfolding land_tasks
  land_tasks-IsMirrored fate c [] members placed current h = h
  land_tasks-IsMirrored fate c (b ∷ bs) members placed current h =
      let (c', marked) = land_task rt ids operator (fate b) c b members in
      land_tasks-IsMirrored fate c' bs marked placed.1
        (map_All (All (IsCurrent members)) (All (IsCurrent marked)) bs
          (λ b'.
            map_All (IsCurrent members) (IsCurrent marked) b'
              (land_task-IsCurrent (fate b) c b members))
          current.1)
        (land_task-IsMirrored (fate b) c b members placed.0 current.0 h)

  pub round_tasks-kept :
      (members : Members)
      → IsUnique members
      → All (IsPlaced rt ids operator) members
      → All (All (IsPlaced rt ids operator)) (round_tasks members)
        × All (All (IsCurrent members)) (round_tasks members)
  unfolding round_tasks
  round_tasks-kept members u placed =
      let size = min num_attributions_per_tx (length (unsynced members)) in
      (
        full_buffers_All (IsPlaced rt ids operator) size (unsynced members) []
            (unsynced_All (IsPlaced rt ids operator) members placed) tt,
        full_buffers_All (IsCurrent members) size (unsynced members) []
            (map_All (IsRow members) (IsCurrent members) (unsynced members) (λ r row. row.0)
              (unsynced-IsRow members u))
            tt,
      )
