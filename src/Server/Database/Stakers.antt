-- ===== src/Server/Database/Stakers.antt =====
-- server/src/database.rs: the `stakers` table. Its primary key is the address of the share account.
use ore_pool.Prelude.{
  ℕ, Result, ok, err, ◌>>=◌, List, [], ◌∷◌, ◌++◌, Bool, true, false, ◌||◌, ◌==◌, if◌then◌else◌,
}
use ore_pool.Prelude.Int.{ℤ}
use ore_pool.Api.State.{Addresses, Pubkey, member_pda, share_pda}
use ore_pool.Server.Error.{Error, tokio_postgres}
use ore_pool.Server.Aggregator.{as_u64}
use ore_pool.Server.Database.{Members, read_member}

pub record StakerRow : Type 0 where
  pub address : Pubkey
  pub member_id : ℤ
  pub mint : Pubkey
  pub webhook : Bool

-- `ore_pool_types::Staker`
pub record Staker : Type 0 where
  pub address : Pubkey
  pub member_id : ℕ
  pub mint : Pubkey
  pub webhook : Bool

abbrev pub StakerRows : Type 0
StakerRows = List StakerRow

abbrev pub decode_staker : StakerRow → Staker
decode_staker r = record {
  address = r.address;
  member_id = as_u64 r.member_id;
  mint = r.mint;
  webhook = r.webhook;
}

unfoldable pub read_staker : StakerRows → Pubkey → Result Error Staker
read_staker [] address = err tokio_postgres
read_staker (r ∷ rs) address =
    if r.address == address then ok (decode_staker r) else read_staker rs address

abbrev pub is_known : Pubkey → StakerRows → Bool
is_known a [] = false
is_known a (r ∷ rs) = r.address == a || is_known a rs

-- The member of the row is there, since its id was read.
unfoldable pub write_new_staker :
    Addresses
    → Members
    → StakerRows
    → (authority pool mint : Pubkey) → Result Error (Staker × StakerRows)
write_new_staker ids members stakers authority pool mint = do
  member ← read_member members (member_pda ids authority pool).0
  let row : StakerRow = record {
    address = (share_pda ids authority pool mint).0;
    member_id = member.id;
    mint = mint;
    webhook = false;
  }
  (if is_known row.address stakers
      then err tokio_postgres
      else ok (decode_staker row, stakers ++ row ∷ []))

unfoldable pub write_webhook_staker : StakerRows → Pubkey → StakerRows
write_webhook_staker [] share = []
write_webhook_staker (r ∷ rs) share =
    (if r.address == share then record r { webhook = true } else r) ∷ write_webhook_staker rs share

unfoldable pub stream_stakers : StakerRows → Pubkey → List Staker
stream_stakers [] mint = []
stream_stakers (r ∷ rs) mint =
    let rest = stream_stakers rs mint in if r.mint == mint then decode_staker r ∷ rest else rest
