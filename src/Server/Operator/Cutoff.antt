-- ===== src/Server/Operator/Cutoff.antt =====
-- The time that is left to contribute.
use ore_pool.Prelude.{ℕ, ◌+◌, ◌-◌, ◌≤◌, ◌≡◌, arith}
use ore_pool.Prelude.Int.{pos, ◌+ℤ◌, ◌-ℤ◌}
use ore_pool.Server.Operator.{cutoff, i64_max}

-- Between the last hash and the end of the minute after it less five seconds, what is left is the
-- difference; from then on it is nothing; and a clock behind the last hash leaves more than 55
-- seconds. No step saturates if the two times are at least zero and a minute below 2 ^ 63.
pub cutoff_lem :
    (hash now : ℕ)
    → hash + 60 ≤ i64_max
    → now ≤ i64_max
    → cutoff (pos hash) (pos now) ≡ hash + 55 - now
unfolding cutoff ◌+ℤ◌ ◌-ℤ◌
cutoff_lem hash now fits fits' = ground arith
