-- ===== src/Server/Attribution/Current.antt =====
-- server/src/database.rs: the rows of a round are what the table says under their addresses.
use ore_pool.Prelude.{
  Bool, ℕ, ◌≡◌, ok, List, [], ◌∷◌, ◌++◌, Bool-cases, length, arith, All, map_All, append_All, false,
  true, inl, inr, ◌⊎◌, ◌==◌, if◌then◌else◌,
}
use mathlib.Core.Path.{subst}
use ore_pool.Api.State.{Pubkey}
use ore_pool.Server.Aggregator.{as_u64}
use ore_pool.Server.Database.{MemberRow, Members, is_in, read_member, write_synced_members}
use ore_pool.Server.Attribution.{unsynced, full_buffers}
use ore_pool.Server.Attribution.Landing.{Ends, none_left, next_ends}
use ore_pool.Server.Attribution.Round.{addresses, IsUnique}

-- What the record under the row's address says is what the row says.
abbrev pub IsCurrent : Members → MemberRow → Type 0
IsCurrent members r =
    (s : MemberRow)
    → read_member members r.address ≡ ok s
    → as_u64 s.total_balance ≡ as_u64 r.total_balance

-- Marking changes nothing that is read but the mark.
pub record Marked (members : Members) (marked : List Pubkey) (a : Pubkey) (r : MemberRow)
    : Type 0 where
  pub before : MemberRow
  pub was : read_member members a ≡ ok before
  pub total : r.total_balance ≡ before.total_balance
  pub mark : r.is_synced ≡ true → (before.is_synced ≡ true) ⊎ (is_in a marked ≡ true)

pub read_member-write_synced_members :
    (members : Members) (marked : List Pubkey) (a : Pubkey) (r : MemberRow)
    → read_member (write_synced_members members marked) a ≡ ok r
    → Marked members marked a r
unfolding read_member write_synced_members
read_member-write_synced_members [] marked a r h = absurd (ground arith)
read_member-write_synced_members (s ∷ rs) marked a r h = elim (Bool-cases (s.address == a)) [
  | inl here ↦ elim (Bool-cases (is_in s.address marked)) [
    | inl found ↦ record {
      before = s;
      was = ground (arith, here);
      total = ground (arith, here, found, h);
      mark = λ e. inr (ground (arith, here, found));
    }
    | inr missed ↦ record {
      before = s;
      was = ground (arith, here);
      total = ground (arith, here, missed, h);
      mark = λ e. inl (ground (arith, here, missed, h, e));
    }
  ]
  | inr elsewhere ↦
      let w = read_member-write_synced_members rs marked a r (ground (arith, h, elsewhere)) in
      record {
        before = w.before;
        was = ground (arith, elsewhere, w.was);
        total = w.total;
        mark = w.mark;
      }
]

pub IsCurrent-write_synced_members :
    (members : Members) (marked : List Pubkey) (r : MemberRow)
    → IsCurrent members r
    → IsCurrent (write_synced_members members marked) r
IsCurrent-write_synced_members members marked r current s h =
    let w = read_member-write_synced_members members marked r.address s h in
    rw w.total (current w.before w.was)

abbrev pub IsRow : Members → MemberRow → Type 0
IsRow members r = IsCurrent members r × (is_in r.address (addresses members) ≡ true)

IsRow-others :
    (s : MemberRow) (members : Members) (r : MemberRow)
    → is_in s.address (addresses members) ≡ false
    → IsRow members r
    → IsRow (s ∷ members) r
unfolding read_member
IsRow-others s members r out (current, here) = elim (Bool-cases (s.address == r.address)) [
  | inl e ↦ absurd (ground (arith, out, here, e))
  | inr e ↦ (λ u h. current u (ground (arith, h, e)), ground (arith, here))
]

if_All :
    (P : MemberRow → Type 0) (b : Bool) (r : MemberRow) (rs : List MemberRow)
    → P r
    → All P rs
    → All P (if b then rs else r ∷ rs)
if_All P true r rs h hs = hs
if_All P false r rs h hs = (h, hs)

pub unsynced-IsRow : (members : Members) → IsUnique members → All (IsRow members) (unsynced members)
unfolding unsynced read_member
unsynced-IsRow [] u = tt
unsynced-IsRow (r ∷ rs) u =
    let rest =
      map_All (IsRow rs) (IsRow (r ∷ rs)) (unsynced rs) (λ s. IsRow-others r rs s u.0)
        (unsynced-IsRow rs u.1) in
    if_All (IsRow (r ∷ rs)) r.is_synced r (unsynced rs) ((λ s h. ground (arith, h), ground arith))
      rest

pub unsynced_All :
    (P : MemberRow → Type 0) (members : Members) → All P members → All P (unsynced members)
unfolding unsynced
unsynced_All P [] hs = tt
unsynced_All P (r ∷ rs) (h, hs) = if_All P r.is_synced r (unsynced rs) h (unsynced_All P rs hs)

pub full_buffers_All :
    (P : MemberRow → Type 0) (size : ℕ) (rows buffer : List MemberRow)
    → All P rows
    → All P buffer
    → All (All P) (full_buffers size rows buffer)
unfolding full_buffers
full_buffers_All P size [] buffer hs ks = tt
full_buffers_All P size (r ∷ rs) buffer (h, hs) ks =
    let ks' = append_All P buffer (r ∷ []) ks (h, tt) in
    elim (Bool-cases (length (buffer ++ r ∷ []) == size)) [
      | inl full ↦ rw full (ks', full_buffers_All P size rs [] hs tt)
      | inr more ↦ rw more (full_buffers_All P size rs (buffer ++ r ∷ []) hs ks')
    ]

-- A row that is read is one of the table, under the address that was asked for.
pub read_member_All :
    (P : MemberRow → Type 0) (members : Members) (a : Pubkey) (r : MemberRow)
    → All P members
    → read_member members a ≡ ok r
    → P r × (r.address ≡ a) × (is_in a (addresses members) ≡ true)
unfolding read_member
read_member_All P [] a r hs h = absurd (ground (arith, h))
read_member_All P (s ∷ rs) a r (here, hs) h = elim (Bool-cases (s.address == a)) [
  | inl e ↦
      let same : s ≡ r = ground (arith, e, h) in
      (subst P same here, ground (arith, same, e), ground (arith, e))
  | inr e ↦
      let (p, at, within) = read_member_All P rs a r hs (ground (arith, e, h)) in
      (p, at, ground (arith, within))
]

pub read_member-IsCurrent :
    (members : Members) (a : Pubkey) (r : MemberRow)
    → read_member members a ≡ ok r
    → r.address ≡ a
    → IsCurrent members r
read_member-IsCurrent members a r h at s h' = ground (arith, h, h', at)

insert_All :
    {A : Type 0} (P : A → Type 0) (xs ys : List A) (b : A)
    → All P (xs ++ b ∷ ys)
    → P b × All P (xs ++ ys)
insert_All P [] ys b hs = hs
insert_All P (x ∷ xs) ys b (h, hs) = let (here, rest) = insert_All P xs ys b hs in (here, (h, rest))

pub Ends_All :
    (P : List MemberRow → Type 0) {tasks left : List (List MemberRow)}
    → Ends tasks left
    → All P left
    → All P tasks
Ends_All P none_left hs = tt
Ends_All P (next_ends xs ys b e rest) hs =
    let (here, others) = insert_All P xs ys b (subst (All P) e hs) in (here, Ends_All P rest others)
