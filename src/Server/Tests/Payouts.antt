-- ===== src/Server/Tests/Payouts.antt =====
-- server/src/aggregator.rs and database.rs: one reward, split and recorded.
use ore_pool.Prelude.{◌≤◌, ◌≡◌, refl, ok, [], ◌∷◌, List, some, none, map, sum, arith}
use ore_pool.Prelude.Store.{get}
use ore_pool.Prelude.Int.{pos}
use ore_pool.Api.State.{Pubkey, pool_pda, member_pda}
use ore_pool.Server.Aggregator.{Aggregator}
use ore_pool.Server.Rewards.{
  Rewards, Distribution, reward_batches, rewards_distribution, rewards_distribution_boost,
  rewards_distribution_operator, proportion, mine_rewards, total_miner_rewards,
  split_stake_rewards_for_miners,
}
use ore_pool.Server.Rewards.Bounds.{amounts}
use ore_pool.Server.Rewards.Conservation.{Fits, reward_batches-le-base}
use ore_pool.Api.Sample.{ids}

abbrev pub agg : Aggregator
agg = record {
  challenge = record { challenge = []; lash_hash_at = pos 20; min_difficulty = 3; cutoff_time = 5 };
  contributions =
      (
        10,
        record { member = 5; score = 1; solution = record { d = []; n = [] } }
            ∷ record { member = 6; score = 2; solution = record { d = []; n = [] } }
            ∷ [],
      )
      ∷ [];
  total_score = 0;
  winner = none;
  num_members = 2;
  stake = (2, (5, 30) ∷ (7, 10) ∷ []) ∷ [];
}

abbrev pub reward : Rewards
reward = record {
  base = 1000;
  boost_1 = some (record { mint = 2; reward = 200 });
  boost_2 = none;
  boost_3 = none;
  last_hash_at = 10;
}

abbrev account : Pubkey → Pubkey
account m = (member_pda ids m (pool_pda ids 9).0).0

-- The operator takes a tenth and the stakers half of the boost: the miners share 720 and 80, one
-- part in three and two in three, and the stakers 100.
abbrev batches : List Distribution
batches =
    ((account 5, 266) ∷ (account 6, 533) ∷ [])
    ∷ ((account 5, 75) ∷ (account 7, 25) ∷ [])
    ∷ []
    ∷ []
    ∷ ((account 9, 100) ∷ [])
    ∷ []

distributes : reward_batches ids agg 9 reward 10 50 ≡ ok batches
unfolding reward_batches rewards_distribution rewards_distribution_boost
    rewards_distribution_operator proportion mine_rewards total_miner_rewards
    split_stake_rewards_for_miners get pool_pda member_pda
distributes = refl

pub fits : Fits agg
unfolding get
fits = record {
  scores_fit = λ at cs known. ground (arith, known);
  balances_fit = λ mint stakers known. ground (arith, known);
}

reward_batches-le-base_example : sum (map amounts batches) ≤ 1000
reward_batches-le-base_example =
    reward_batches-le-base ids agg fits 9 reward 10 50 distributes (omega arith) (omega arith)
      (omega arith)
