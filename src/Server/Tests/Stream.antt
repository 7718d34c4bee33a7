-- ===== src/Server/Tests/Stream.antt =====
-- server/src/database.rs: eleven members, of whom one round attributes ten.
use ore_pool.Prelude.{ℕ, ◌≡◌, refl, [], ◌∷◌, true, false, map, length, if◌then◌else◌, leb, ◌%◌}
use ore_pool.Prelude.Int.{pos}
use ore_pool.Server.Database.{MemberRow, Members}
use ore_pool.Server.Attribution.{unsynced, stream_members_attribution}
use ore_pool.Server.Attribution.Round.{IsUnique, stream_members_attribution_rest}

abbrev row : ℕ → MemberRow
row n = record {
  address = n;
  id = pos n;
  authority = n;
  pool_address = 1;
  total_balance = pos n;
  is_approved = true;
  is_kyc = false;
  is_synced = false;
}

abbrev members : Members
members = map row (1 ∷ 2 ∷ 3 ∷ 4 ∷ 5 ∷ 6 ∷ 7 ∷ 8 ∷ 9 ∷ 10 ∷ 11 ∷ [])

unique : IsUnique members
unique = (refl, (refl, (refl, (refl, (refl, (refl, (refl, (refl, (refl, (refl, (refl, tt)))))))))))

eleven : length (unsynced members) ≡ 11
unfolding unsynced
eleven = refl

stream_members_attribution_rest_example :
    length (unsynced (stream_members_attribution (λ ixs. true) members))
    ≡ (if leb (length (unsynced members)) 10 then 0 else length (unsynced members) % 10)
stream_members_attribution_rest_example = stream_members_attribution_rest members unique
