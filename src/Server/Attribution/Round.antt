-- ===== src/Server/Attribution/Round.antt =====
-- One round of attributions over the table of members.
use mathlib.Core.Path.{subst}
use mathlib.Core.List.{append_assoc}
use ore_pool.Prelude.{
  ◌≡◌, ◌<◌, ◌%◌, refl, ap, sym, ◌∙◌, List, [], ◌∷◌, ◌++◌, true, false, Bool-cases, inl, inr, ◌⊎◌,
  map, length, min, leb, arith, if◌then◌else◌,
}
use ore_pool.Api.State.{Pubkey}
use ore_pool.Server.Database.{MemberRow, Members, is_in, write_synced_members}
use ore_pool.Server.Attribution.{
  unsynced, full_buffers, run_tasks, stream_members_attribution, num_attributions_per_tx,
}
use ore_pool.Server.Attribution.Batches.{concat_all, full_buffers-Splits, Splits-length-dropped}

abbrev pub addresses : List MemberRow → List Pubkey
addresses = map (λ (r : MemberRow). r.address)

-- The address is the primary key.
abbrev pub IsUnique : List MemberRow → Type 0
IsUnique [] = Unit {0}
IsUnique (r ∷ rs) = (is_in r.address (addresses rs) ≡ false) × IsUnique rs

without : List Pubkey → List MemberRow → List MemberRow
without marked [] = []
without marked (r ∷ rs) =
    let rest = without marked rs in if is_in r.address marked then rest else r ∷ rest

unsynced-write_synced_members :
    (rs : Members) (marked : List Pubkey)
    → unsynced (write_synced_members rs marked) ≡ without marked (unsynced rs)
unfolding unsynced write_synced_members without
unsynced-write_synced_members [] marked = refl
unsynced-write_synced_members (r ∷ rs) marked =
    ground (arith, unsynced-write_synced_members rs marked)

without_other :
    (a : Pubkey) (marked : List Pubkey) (rs : List MemberRow)
    → is_in a (addresses rs) ≡ false
    → without (a ∷ marked) rs ≡ without marked rs
unfolding without
without_other a marked [] h = refl
without_other a marked (r ∷ rs) h = ground (arith, without_other a marked rs)

without_front :
    (b rest : List MemberRow) → IsUnique (b ++ rest) → without (addresses b) (b ++ rest) ≡ rest
unfolding without
without_front [] [] u = refl
without_front [] (r ∷ rs) u = ap (λ t. r ∷ t) (without_front [] rs u.1)
without_front (r ∷ b) rest u =
    ground (arith, without_other r.address (addresses b) (b ++ rest) u.0, without_front b rest u.1)

rest-IsUnique : (b rest : List MemberRow) → IsUnique (b ++ rest) → IsUnique rest
rest-IsUnique [] rest u = u
rest-IsUnique (r ∷ b) rest u = rest-IsUnique b rest u.1

unsynced_others :
    (a : Pubkey) (rs : Members)
    → is_in a (addresses rs) ≡ false
    → is_in a (addresses (unsynced rs)) ≡ false
unfolding unsynced
unsynced_others a [] h = refl
unsynced_others a (r ∷ rs) h = ground (arith, unsynced_others a rs)

unsynced-IsUnique : (rs : Members) → IsUnique rs → IsUnique (unsynced rs)
unfolding unsynced
unsynced-IsUnique [] u = tt
unsynced-IsUnique (r ∷ rs) u = elim (Bool-cases r.is_synced) [
  | inl done ↦ rw done (unsynced-IsUnique rs u.1)
  | inr open_ ↦ rw open_ (unsynced_others r.address rs u.0, unsynced-IsUnique rs u.1)
]

-- When every task is confirmed, what remains are the rows after those handed on.
unsynced-run_tasks :
    (bs : List (List MemberRow)) (rest : List MemberRow) (members : Members)
    → concat_all bs ++ rest ≡ unsynced members
    → IsUnique (unsynced members)
    → unsynced (run_tasks (λ ixs. true) bs members) ≡ rest
unfolding run_tasks
unsynced-run_tasks [] rest members e u = sym e
unsynced-run_tasks (b ∷ bs) rest members e u =
    let u' : IsUnique (b ++ (concat_all bs ++ rest)) =
      subst IsUnique (sym e ∙ append_assoc b (concat_all bs) rest) u in
    let marked = write_synced_members members (addresses b) in
    let e' : concat_all bs ++ rest ≡ unsynced marked = sym (
      unsynced-write_synced_members members (addresses b)
      ∙ ap (without (addresses b)) (sym e ∙ append_assoc b (concat_all bs) rest)
      ∙ without_front b (concat_all bs ++ rest) u') in
    unsynced-run_tasks bs rest marked e'
      (subst IsUnique e' (rest-IsUnique b (concat_all bs ++ rest) u'))

List-cases : (rs : List MemberRow) → (rs ≡ []) ⊎ (0 < min num_attributions_per_tx (length rs))
List-cases [] = inl refl
List-cases (r ∷ rs) = inr (omega arith)

-- If addresses are unique and every transaction of a round is confirmed, no member is left when
-- there were ten or fewer, and of more than ten as many are left, unattributed, as do not fill a
-- batch of ten.
pub stream_members_attribution_rest :
    (members : Members)
    → IsUnique members
    → length (unsynced (stream_members_attribution (λ ixs. true) members))
      ≡ (if leb (length (unsynced members)) 10 then 0 else length (unsynced members) % 10)
unfolding stream_members_attribution full_buffers run_tasks
stream_members_attribution_rest members u = elim (List-cases (unsynced members)) [
  | inl none_left ↦ rw none_left (ap length none_left)
  | inr some_left ↦
      let rows = unsynced members in
      let v = full_buffers-Splits (min num_attributions_per_tx (length rows)) rows [] some_left in
      ap length (
        unsynced-run_tasks (full_buffers (min num_attributions_per_tx (length rows)) rows [])
          v.dropped members v.in_order (unsynced-IsUnique members u))
      ∙ Splits-length-dropped rows _ v
]
