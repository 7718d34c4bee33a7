-- ===== src/Server/Aggregator.antt =====
-- server/src/aggregator.rs: the state of the aggregator, and what a contribution does to it. A
-- `HashMap` is a store and a `HashSet` of contributions a list without two of one member; both
-- iterate in an order that the code leaves open.
pub mod Invariant
use ore_pool.Prelude.{
  ℕ, ◌+◌, ◌-◌, ◌*◌, ◌%◌, ◌^◌, suc, Result, ok, err, ◌>>=◌, ok_or, List, [], ◌∷◌, Option, none, some,
  Bool, true, false, ◌||◌, ◌==◌, min, ltb, if◌then◌else◌,
}
use ore_pool.Prelude.Words.{wrapping_add, u64_mod}
use ore_pool.Prelude.Int.{ℤ, pos, negsuc}
use ore_pool.Prelude.Store.{Store, get, put}
use ore_pool.Api.State.{Pubkey}
use ore_pool.Server.Error.{Error, internal}

-- drillx's `Solution`: the digest and the nonce, as bytes.
pub record Solution : Type 0 where
  pub d : List ℕ
  pub n : List ℕ

-- `ore_pool_types::Challenge`
pub record Challenge : Type 0 where
  pub challenge : List ℕ
  pub lash_hash_at : ℤ
  pub min_difficulty : ℕ
  pub cutoff_time : ℕ

pub record Winner : Type 0 where
  pub solution : Solution
  pub difficulty : ℕ

pub record Contribution : Type 0 where
  pub member : Pubkey
  pub score : ℕ
  pub solution : Solution

abbrev pub MinerContributions : Type 0
MinerContributions = List Contribution

abbrev pub Miners : Type 0
Miners = Store MinerContributions

abbrev pub StakerBalances : Type 0
StakerBalances = Store ℕ

abbrev pub Stakers : Type 0
Stakers = Store StakerBalances

pub record Aggregator : Type 0 where
  pub challenge : Challenge
  pub contributions : Miners
  pub total_score : ℕ
  pub winner : Option Winner
  pub num_members : ℕ
  pub stake : Stakers

abbrev pub max_difficulty : ℕ
max_difficulty = 22

abbrev pub max_score : ℕ
max_score = 2 ^ max_difficulty

-- `x as u64` for an `i64`
abbrev pub as_u64 : ℤ → ℕ
as_u64 (pos n) = n
as_u64 (negsuc n) = u64_mod - suc n

-- Whether a set holds an entry of this member, by the `PartialEq` and `Hash` of `Contribution`.
unfoldable pub contains : Pubkey → MinerContributions → Bool
contains m [] = false
contains m (c ∷ cs) = m == c.member || contains m cs

unfoldable pub get_current_contributions : Aggregator → Result Error MinerContributions
get_current_contributions agg =
    ok_or (get (as_u64 agg.challenge.lash_hash_at) agg.contributions)
      (internal "missing contributions at current hash")

-- The better of the winner so far and a contender.
abbrev pub contend : Option Winner → Winner → Winner
contend none contender = contender
contend (some winner) contender =
    if ltb winner.difficulty contender.difficulty then contender else winner

-- `difficulty` is `solution.to_hash().difficulty()` of drillx.
unfoldable pub insert : (Solution → ℕ) → Aggregator → Contribution → Result Error Aggregator
unfolding get_current_contributions
insert difficulty agg contribution = do
  let normalized = record contribution { score = min contribution.score max_score }
  contributions ← get_current_contributions agg
  let contender : Winner = record {
    solution = contribution.solution;
    difficulty = difficulty contribution.solution;
  }
  ok (
      if contains normalized.member contributions then agg else record agg {
        contributions =
            put (as_u64 agg.challenge.lash_hash_at) (normalized ∷ contributions) agg.contributions;
        total_score = wrapping_add agg.total_score normalized.score;
        winner = some (contend agg.winner contender);
      })

unfoldable pub winner_of : Aggregator → Result Error Winner
winner_of agg = ok_or agg.winner (internal "no solutions were submitted")
