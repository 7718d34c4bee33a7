-- ===== src/Server/Database/Members.antt =====
-- The records of members: what an insertion writes, and what is read then.
use ore_pool.Prelude.{
  inl, inr, Bool-cases, ok-injective, ◌≡◌, refl, ok, err, [], ◌∷◌, ◌++◌, Bool, true, false, ◌==◌,
  arith, if◌then◌else◌,
}
use mathlib.Core.Path.{subst}
use ore_pool.Api.State.{Addresses, Pubkey, Member, member_pda}
use ore_pool.Server.Error.{Error, tokio_postgres}
use ore_pool.Prelude.Int.{pos}
use ore_pool.Server.Database.{
  as_i64, new_row, MemberRow, Members, is_taken, read_member, write_new_member,
}

pub read_appended :
    (rs : Members) (row : MemberRow) (a : Pubkey)
    → is_taken row rs ≡ false
    → read_member (rs ++ row ∷ []) a ≡ (if row.address == a then ok row else read_member rs a)
unfolding read_member
read_appended [] row a h = ground arith
read_appended (r ∷ rs) row a h = ground (arith, read_appended rs row a)

again_is_taken :
    (rs : Members) (row other : MemberRow)
    → row.address ≡ other.address
    → is_taken other (rs ++ row ∷ []) ≡ true
again_is_taken [] row other e = ground arith
again_is_taken (r ∷ rs) row other e = ground (arith, again_is_taken rs row other e)

module _ (ids : Addresses) (members : Members) (m : Member) where
  unfoldable pub Recorded : MemberRow × Members → Type 0
  Recorded (row, after) =
      (row.address ≡ (member_pda ids m.authority m.pool).0)
      × ((a : Pubkey)
          → read_member after a ≡ (if row.address == a then ok row else read_member members a))
      × ((again : Bool) → write_new_member ids after m again ≡ err tokio_postgres)

  inserted :
      (approved : Bool)
      → is_taken (new_row ids m approved) members ≡ false
      → Recorded (new_row ids m approved, members ++ new_row ids m approved ∷ [])
  unfolding write_new_member Recorded
  inserted approved fresh =
      let row = new_row ids m approved in
      (
        refl,
        (λ a. read_appended members row a fresh),
        λ again. ground (arith, again_is_taken members row (new_row ids m again) refl),
      )

  -- A new member is read back under its address as written, every other record is read as before,
  -- and a second insertion of the member fails.
  pub write_new_member-read_member :
      (approved : Bool) {row : MemberRow} {after : Members}
      → write_new_member ids members m approved ≡ ok (row, after)
      → Recorded (row, after)
  unfolding write_new_member
  write_new_member-read_member approved {row} {after} h =
      elim (Bool-cases (is_taken (new_row ids m approved) members)) [
        | inl taken ↦ absurd (ground arith)
        | inr fresh ↦
            subst Recorded (ok-injective {E = Error} (ground arith)) (inserted approved fresh)
      ]

-- The record of a member that the table did not have: what it says, and what the table says then.
pub record Enrols (ids : Addresses) (m : Member) (before after : Members) (row : MemberRow)
    : Type 0 where
  pub address : row.address ≡ (member_pda ids m.authority m.pool).0
  pub id : row.id ≡ as_i64 m.id
  pub authority : row.authority ≡ m.authority
  pub pool_address : row.pool_address ≡ m.pool
  pub unpaid : row.total_balance ≡ pos 0
  pub unapproved : row.is_approved ≡ false
  pub no_kyc : row.is_kyc ≡ false
  pub synced : row.is_synced ≡ true
  pub unknown : read_member before row.address ≡ err tokio_postgres
  pub reads :
      (a : Pubkey)
      → read_member after a ≡ (if row.address == a then ok row else read_member before a)

untaken_unread :
    (row : MemberRow) (rs : Members)
    → is_taken row rs ≡ false
    → read_member rs row.address ≡ err tokio_postgres
unfolding read_member
untaken_unread row [] h = refl
untaken_unread row (r ∷ rs) h = ground (arith, h, untaken_unread row rs)

pub write_new_member-Enrols :
    (ids : Addresses) (members : Members) (m : Member) {row : MemberRow} {after : Members}
    → write_new_member ids members m false ≡ ok (row, after)
    → Enrols ids m members after row
unfolding write_new_member
write_new_member-Enrols ids members m {row} {after} h =
    let new = new_row ids m false in
    elim (Bool-cases (is_taken new members)) [
      | inl taken ↦ absurd (ground (arith, h, taken))
      | inr fresh ↦
          let same : row ≡ new = ground (arith, h, fresh) in
          let last : after ≡ members ++ new ∷ [] = ground (arith, h, fresh) in
          rw (same, last)
            (record {
              address = refl;
              id = refl;
              authority = refl;
              pool_address = refl;
              unpaid = refl;
              unapproved = refl;
              no_kyc = refl;
              synced = refl;
              unknown = untaken_unread new members fresh;
              reads = λ a. read_appended members new a fresh;
            })
    ]
