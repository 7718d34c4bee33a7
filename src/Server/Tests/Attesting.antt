-- ===== src/Server/Tests/Attesting.antt =====
-- server/src/aggregator.rs: what an attestation leaves out is the score.
use ore_pool.Prelude.{ℕ, ◌≡◌, refl, ap, [], ◌∷◌, zero, suc, map, replicate, length, arith}
use ore_pool.Prelude.Text.{Text, decimal, decimal_loop}
use ore_pool.Prelude.Words.{from_le_bytes}
use ore_pool.Server.Aggregator.{MinerContributions}
use ore_pool.Server.Cycle.Attestation.{line, lines, hex_string}
use ore_pool.Server.Cycle.Commitment.{IsFree, attested, lines-attested}
use ore_pool.Server.Tests.Round.{by}

-- A key as so many strokes.
abbrev strokes : ℕ → Text
strokes k = replicate k 49

length-strokes : (k : ℕ) → length (strokes k) ≡ k
length-strokes zero = refl
length-strokes (suc k) = ap suc (length-strokes k)

strokes_apart : (j k : ℕ) → strokes j ≡ strokes k → j ≡ k
strokes_apart j k e = ground (arith, ap length e, length-strokes j, length-strokes k)

strokes-IsFree : (k : ℕ) → IsFree b' ' (strokes k)
strokes-IsFree zero = tt
strokes-IsFree (suc k) = (refl, strokes-IsFree k)

abbrev mined : MinerContributions
mined = by 2 4 ∷ by 3 7 ∷ []

abbrev rescored : MinerContributions
rescored = record (by 2 4) { score = 9 } ∷ by 3 7 ∷ []

same_lines : lines strokes mined ≡ lines strokes rescored
unfolding lines line hex_string decimal decimal_loop from_le_bytes
same_lines = refl

small : from_le_bytes [] ≡ 0
unfolding from_le_bytes
small = refl

lines-attested_example : map attested mined ≡ map attested rescored
lines-attested_example =
    lines-attested strokes strokes_apart strokes-IsFree mined rescored
      (((omega arith, tt), omega (arith, small)), (((omega arith, tt), omega (arith, small)), tt))
      (((omega arith, tt), omega (arith, small)), (((omega arith, tt), omega (arith, small)), tt))
      same_lines
