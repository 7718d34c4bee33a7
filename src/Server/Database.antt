-- ===== src/Server/Database.antt =====
-- server/src/database.rs: the `members` table and the statements that the server runs on it. The
-- table is the list of its rows (init-db/01_setup.sql: the address is the primary key, the id is
-- unique); an address or an authority stands for its text.
pub mod Members
pub mod Stakers
pub mod Sync
use ore_pool.Prelude.{
  ℕ, ◌-◌, ◌^◌, suc, Result, ok, err, ◌>>=◌, ok_or, List, [], ◌∷◌, ◌++◌, Option, none, some, Bool,
  true, false, ◌||◌, ◌==◌, ltb, leb, if◌then◌else◌,
}
use ore_pool.Prelude.Int.{ℤ, pos, negsuc, ◌+ℤ◌}
use ore_pool.Prelude.Words.{u64_mod}
use ore_pool.Api.State.{Addresses, Pubkey, Member, member_pda}
use ore_pool.Server.Error.{Error, tokio_postgres}

-- `ore_pool_types::Member`, which is also the row.
pub record MemberRow : Type 0 where
  pub address : Pubkey
  pub id : ℤ
  pub authority : Pubkey
  pub pool_address : Pubkey
  pub total_balance : ℤ
  pub is_approved : Bool
  pub is_kyc : Bool
  pub is_synced : Bool

abbrev pub Members : Type 0
Members = List MemberRow

abbrev pub i64_limit : ℕ
i64_limit = 2 ^ 63

-- `x as i64` for a `u64`
abbrev pub as_i64 : ℕ → ℤ
as_i64 n = if ltb n i64_limit then pos n else negsuc (u64_mod - suc n)

-- A `BIGINT`, or the error of the database when it is out of range.
abbrev pub bigint : ℤ → Option ℤ
bigint (pos n) = if ltb n i64_limit then some (pos n) else none
bigint (negsuc n) = if ltb n i64_limit then some (negsuc n) else none

abbrev pub equal_ℤ : ℤ → ℤ → Bool
equal_ℤ (pos m) (pos n) = m == n
equal_ℤ (negsuc m) (negsuc n) = m == n
equal_ℤ _ _ = false

-- UPDATE members SET total_balance = total_balance + $1, is_synced = false WHERE address = $2
unfoldable pub update_total_balance : ℤ → Pubkey → Members → Result Error Members
update_total_balance increment address [] = ok []
update_total_balance increment address (r ∷ rs) = do
  rs' ← update_total_balance increment address rs
  (if r.address == address
      then ok_or (bigint (r.total_balance +ℤ increment)) tokio_postgres
        >>= (λ total. ok (record r { total_balance = total; is_synced = false } ∷ rs'))
      else ok (r ∷ rs'))

-- One transaction: an error leaves the table as it was, since nothing is returned for it.
unfoldable pub write_member_total_balances : Members → List (Pubkey × ℕ) → Result Error Members
write_member_total_balances members [] = ok members
write_member_total_balances members ((address, increment) ∷ increments) = do
  updated ← update_total_balance (as_i64 increment) address members
  write_member_total_balances updated increments

abbrev pub is_in : Pubkey → List Pubkey → Bool
is_in a [] = false
is_in a (b ∷ bs) = a == b || is_in a bs

-- UPDATE members SET is_synced = true WHERE address = ANY($1)
unfoldable pub write_synced_members : Members → List Pubkey → Members
write_synced_members [] addresses = []
write_synced_members (r ∷ rs) addresses =
    (if is_in r.address addresses then record r { is_synced = true } else r)
    ∷ write_synced_members rs addresses

-- SELECT .. FROM members WHERE address = '..', of which there is one row or an error
unfoldable pub read_member : Members → Pubkey → Result Error MemberRow
read_member [] address = err tokio_postgres
read_member (r ∷ rs) address = if r.address == address then ok r else read_member rs address

-- Whether the constraints of the table refuse a row: its address or its id is there already.
abbrev pub is_taken : MemberRow → Members → Bool
is_taken m [] = false
is_taken m (r ∷ rs) = r.address == m.address || equal_ℤ r.id m.id || is_taken m rs

abbrev pub new_row : Addresses → Member → Bool → MemberRow
new_row ids member approved = record {
  address = (member_pda ids member.authority member.pool).0;
  id = as_i64 member.id;
  authority = member.authority;
  pool_address = member.pool;
  total_balance = pos 0;
  is_approved = approved;
  is_kyc = false;
  is_synced = true;
}

unfoldable pub write_new_member :
    Addresses → Members → Member → Bool → Result Error (MemberRow × Members)
write_new_member ids members member approved =
    let row = new_row ids member approved in
    if is_taken row members then err tokio_postgres else ok (row, members ++ row ∷ [])
