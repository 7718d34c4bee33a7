-- ===== src/Server/Database/Sync.antt =====
-- server/src/database.rs: the mark of a synced record against an increment that comes before it.
use ore_pool.Prelude.{ok, ◌≡◌, ◌∷◌, [], Result-cases, Option-cases, some, inl, inr, arith, true}
use ore_pool.Prelude.Int.{ℤ, ◌+ℤ◌}
use ore_pool.Api.State.{Pubkey}
use ore_pool.Server.Database.{
  MemberRow, Members, bigint, read_member, update_total_balance, write_synced_members,
}

bigint_same : (t u : ℤ) → bigint t ≡ some u → u ≡ t
bigint_same t u h = ground (arith, h)

-- The record of a member that is credited between the reading of its balance and the mark that the
-- balance was written on chain is marked as synced with the credit in it, for every increment that
-- the table takes.
pub write_synced_members-read_member :
    (members credited : Members) (a : Pubkey) (row : MemberRow) (increment : ℤ)
    → read_member members a ≡ ok row
    → update_total_balance increment a members ≡ ok credited
    → read_member (write_synced_members credited (a ∷ [])) a
      ≡ ok (record row { total_balance = row.total_balance +ℤ increment; is_synced = true })
unfolding read_member update_total_balance write_synced_members
write_synced_members-read_member [] credited a row increment h e = absurd (ground (arith, h))
write_synced_members-read_member (r ∷ rs) credited a row increment h e =
    elim (Result-cases (update_total_balance increment a rs)) [
      | inr (x, e') ↦ absurd (ground (arith, e', e))
      | inl (rest, e') ↦ elim (Option-cases (bigint (r.total_balance +ℤ increment))) [
        | inl e2 ↦
            ground (arith, e', e2, e, h, write_synced_members-read_member rs rest a row increment)
        | inr (t, e2) ↦ ground (
          arith,
          e',
          e2,
          e,
          h,
          bigint_same (r.total_balance +ℤ increment) t e2,
          write_synced_members-read_member rs rest a row increment,
        )
      ]
    ]
