-- ===== src/Server/Tests/Round.antt =====
-- server/src/aggregator.rs and contributor.rs: a round with two members.
use ore_pool.Prelude.{
  ℕ, ◌^◌, ◌*◌, ◌+◌, ◌/◌, ◌-◌, ◌<◌, ◌≡◌, refl, ok, [], ◌∷◌, List, some, arith, true, inl,
}
use ore_pool.Prelude.Store.{get, put}
use ore_pool.Prelude.Words.{u64_max}
use ore_pool.Prelude.Int.{pos}
use ore_pool.Server.Aggregator.{
  Aggregator, Contribution, Solution, Winner, contains, get_current_contributions, insert,
}
use ore_pool.Server.Aggregator.Invariant.{IsConsistent}
use ore_pool.Server.Nonce.{in_range}
use ore_pool.Server.Nonce.Ranges.{in_range_shared, in_range_covers}

-- The first byte of a digest stands for its difficulty.
abbrev pub first : List ℕ → ℕ
first [] = 0
first (x ∷ xs) = x

abbrev pub difficulty : Solution → ℕ
difficulty s = first s.d

abbrev pub found : ℕ → Solution
found x = record { d = x ∷ []; n = [] }

abbrev pub by : ℕ → ℕ → Contribution
by m x = record { member = m; score = 2 ^ x; solution = found x }

abbrev pub round : List Contribution → ℕ → Winner → Aggregator
round cs total best = record {
  challenge = record { challenge = []; lash_hash_at = pos 10; min_difficulty = 3; cutoff_time = 5 };
  contributions = (10, cs) ∷ [];
  total_score = total;
  winner = some best;
  num_members = 2;
  stake = [];
}

abbrev pub won : ℕ → Winner
won x = record { solution = found x; difficulty = x }

inserts :
    insert difficulty (round (by 5 4 ∷ []) 16 (won 4)) (by 6 7)
    ≡ ok (round (by 6 7 ∷ by 5 4 ∷ []) 144 (won 7))
unfolding insert get_current_contributions contains get put
inserts = refl

consistent : IsConsistent difficulty (round (by 5 4 ∷ []) 16 (won 4))
unfolding get contains
consistent = record {
  current = by 5 4 ∷ [];
  current_at = refl;
  distinct = (refl, tt);
  capped = (omega arith, tt);
  scored = refl;
  best = (refl, (omega arith, tt), inl refl);
}

half_shared : in_range 2 0 (2 ^ 63 - 1) ≡ true
unfolding in_range
half_shared = refl

shared_half : in_range 2 1 (2 ^ 63 - 1) ≡ true
unfolding in_range
shared_half = refl

in_range_shared_example : (1 ≡ 0 + 1) × (2 ^ 63 - 1 ≡ u64_max / 2 * 1)
in_range_shared_example =
    in_range_shared 2 0 1 (2 ^ 63 - 1) (omega arith) (omega arith) (omega arith) half_shared
      shared_half

in_range_covers_example : (100 / (u64_max / 2) < 2) × (in_range 2 (100 / (u64_max / 2)) 100 ≡ true)
in_range_covers_example = in_range_covers 2 100 (omega arith) (omega arith) (omega arith)

last_of_all : in_range 2 2 (2 ^ 64 - 2) ≡ true
unfolding in_range
last_of_all = refl
