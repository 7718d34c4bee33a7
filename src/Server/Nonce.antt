-- ===== src/Server/Nonce.antt =====
-- server/src/contributor.rs, `validate_nonce`: every member searches its own part of the nonces.
pub mod Ranges
use ore_pool.Prelude.{
  ℕ, ◌/◌, Result, ok, err, ◌>>=◌, Bool, true, false, ◌&&◌, leb, ◌==◌, if◌then◌else◌,
}
use ore_pool.Prelude.Words.{u64_max, saturating_mul, wrapping_add}
use ore_pool.Prelude.Int.{ℤ}
use ore_pool.Server.Error.{Error, internal}
use ore_pool.Server.Aggregator.{as_u64}

-- The test on the two bounds.
unfoldable pub in_range : ℕ → ℕ → ℕ → Bool
in_range num_members nonce_index nonce =
    let u64_unit = u64_max / num_members in
    let left_bound = saturating_mul u64_unit nonce_index in
    let right_bound = saturating_mul u64_unit (wrapping_add nonce_index 1) in
    leb left_bound nonce && leb nonce right_bound

-- `member_id` is what the database answers for the member.
unfoldable pub validate_nonce : Result Error ℤ → ℕ → ℕ → Result Error (Unit {0})
unfolding in_range
validate_nonce member_id nonce num_members =
    if num_members == 0
    then ok tt
    else member_id >>= λ id.
        if in_range num_members (as_u64 id) nonce
        then ok tt
        else err (internal "invalid nonce from client")
