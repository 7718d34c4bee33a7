-- ===== src/Server/Rewards.antt =====
-- server/src/aggregator.rs, `distribute_rewards` and the splits that it computes. `u64` arithmetic
-- wraps, as in the release build of the server; the products are taken in `u128`.
pub mod Bounds
pub mod Conservation
pub mod Owed
pub mod Credits
use ore_pool.Prelude.{
  ℕ, ◌+◌, ◌*◌, ◌/◌, ◌%◌, ◌-◌, ◌^◌, Result, ok, err, ◌>>=◌, ok_or, List, [], ◌∷◌, ◌++◌, Option, none,
  some, map, min, ◌==◌, if◌then◌else◌,
}
use ore_pool.Prelude.Words.{wrapping_add, wrapping_sub, wrapping_mul, u64_mod}
use ore_pool.Prelude.Store.{Store, get, remove}
use ore_pool.Api.State.{Addresses, Pubkey, pool_pda, member_pda}
use ore_pool.Server.Error.{Error, internal}
use ore_pool.Server.Aggregator.{Aggregator, Contribution, MinerContributions, StakerBalances}

-- The fields of `ore_api::event::BoostEvent` that the server reads.
pub record BoostEvent : Type 0 where
  pub mint : Pubkey
  pub reward : ℕ

-- `webhook::Rewards`
pub record Rewards : Type 0 where
  pub base : ℕ
  pub boost_1 : Option BoostEvent
  pub boost_2 : Option BoostEvent
  pub boost_3 : Option BoostEvent
  pub last_hash_at : ℕ

-- What the members' accounts are credited; an address stands for its text.
abbrev pub Distribution : Type 0
Distribution = List (Pubkey × ℕ)

abbrev pub u128_max : ℕ
u128_max = 2 ^ 128 - 1

-- `.map(|b| b.reward).unwrap_or(0)`
abbrev pub reward_or : Option BoostEvent → ℕ
reward_or none = 0
reward_or (some b) = b.reward

-- `.iter().sum()` of `u64`
abbrev pub wrapping_sum : List ℕ → ℕ
wrapping_sum [] = 0
wrapping_sum (x ∷ xs) = wrapping_add x (wrapping_sum xs)

-- `x.saturating_mul(total).checked_div(denominator).unwrap_or(0) as u64`
unfoldable pub proportion : ℕ → ℕ → ℕ → ℕ
proportion total denominator x =
    (if denominator == 0 then 0 else min (x * total) u128_max / denominator) % u64_mod

unfoldable pub mine_rewards : Rewards → ℕ
mine_rewards r =
    wrapping_sub (wrapping_sub (wrapping_sub r.base (reward_or r.boost_1)) (reward_or r.boost_2))
      (reward_or r.boost_3)

unfoldable pub split_stake_rewards_for_miners : Option BoostEvent → ℕ → ℕ → ℕ
split_stake_rewards_for_miners none operator_commission staker_commission = 0
split_stake_rewards_for_miners (some boost_event) operator_commission staker_commission =
    boost_event.reward * wrapping_sub (wrapping_sub 100 operator_commission) staker_commission / 100

-- `total_rewards` of `rewards_distribution`: what the miners share.
unfoldable pub total_miner_rewards : Rewards → ℕ → ℕ → ℕ
total_miner_rewards r oc sc =
    wrapping_mul (mine_rewards r) (wrapping_sub 100 oc) / 100
    + split_stake_rewards_for_miners r.boost_1 oc sc
    + split_stake_rewards_for_miners r.boost_2 oc sc
    + split_stake_rewards_for_miners r.boost_3 oc sc

-- What the operator takes of one boost.
abbrev pub operator_boost : Option BoostEvent → ℕ → ℕ
operator_boost none oc = 0
operator_boost (some b) oc = wrapping_mul b.reward oc / 100

module _ (ids : Addresses) where
  unfoldable pub rewards_distribution :
      Aggregator → Pubkey → Rewards → ℕ → ℕ → Result Error Distribution
  rewards_distribution agg pool rewards operator_commission staker_commission = do
    contributions ←
        ok_or (get rewards.last_hash_at agg.contributions)
          (internal "missing contributions at reward hash")
    let denominator = wrapping_sum (map (λ (c : Contribution). c.score) contributions)
    let total_rewards = total_miner_rewards rewards operator_commission staker_commission
    ok (
        map
          (λ (c : Contribution).
            ((member_pda ids c.member pool).0, proportion total_rewards denominator c.score))
          contributions)

  unfoldable pub rewards_distribution_boost :
      Aggregator → Pubkey → Option BoostEvent → ℕ → Result Error Distribution
  rewards_distribution_boost agg pool none staker_commission = ok []
  rewards_distribution_boost agg pool (some boost_event) staker_commission = do
    stakers ← ok_or (get boost_event.mint agg.stake) (internal "missing staker balances")
    let staker_rewards = boost_event.reward * staker_commission / 100
    let denominator = wrapping_sum (map (λ (e : Pubkey × ℕ). e.1) stakers)
    ok (
        map
          (λ (e : Pubkey × ℕ).
            ((member_pda ids e.0 pool).0, proportion staker_rewards denominator e.1))
          stakers)

  unfoldable pub rewards_distribution_operator : Pubkey → Pubkey → Rewards → ℕ → Pubkey × ℕ
  rewards_distribution_operator pool pool_authority rewards operator_commission =
      let mine = wrapping_mul (mine_rewards rewards) operator_commission / 100 in
      let stake =
        wrapping_add
          (wrapping_add (operator_boost rewards.boost_1 operator_commission)
            (operator_boost rewards.boost_2 operator_commission))
          (operator_boost rewards.boost_3 operator_commission) in
      ((member_pda ids pool_authority pool).0, wrapping_add mine stake)

  -- The five batches that one reward is written in.
  unfoldable pub reward_batches :
      Aggregator → Pubkey → Rewards → ℕ → ℕ → Result Error (List Distribution)
  reward_batches agg pool_authority rewards oc sc = do
    let pool = (pool_pda ids pool_authority).0
    miners ← rewards_distribution agg pool rewards oc sc
    boost_1 ← rewards_distribution_boost agg pool rewards.boost_1 sc
    boost_2 ← rewards_distribution_boost agg pool rewards.boost_2 sc
    boost_3 ← rewards_distribution_boost agg pool rewards.boost_3 sc
    ok (
        miners
        ∷ boost_1
        ∷ boost_2
        ∷ boost_3
        ∷ (rewards_distribution_operator pool pool_authority rewards oc ∷ [])
        ∷ [])

-- The batches are written one transaction after the other; the first failure ends the writing and
-- leaves what was committed.
unfoldable pub write_batches :
    {D : Type 0}
    → (D → Distribution → Result Error D)
    → D
    → List Distribution
    → Result Error (Unit {0}) × D
write_batches write db [] = (ok tt, db)
write_batches write db (b ∷ bs) = elim (write db b) [
  | ok db' ↦ write_batches write db' bs
  | err e ↦ (err e, db)
]

-- The contributions of the reward are dropped only when every batch was written.
abbrev pub cleaned : Aggregator → ℕ → Result Error (Unit {0}) → Aggregator
cleaned agg last_hash_at (ok done) = record agg {
  contributions = remove last_hash_at agg.contributions;
}
cleaned agg last_hash_at (err e) = agg

unfoldable pub distribute_rewards :
    {D : Type 0}
    → Addresses
    → (D → Distribution → Result Error D)
    → Aggregator
    → D
    → Pubkey
    → Rewards
    → ℕ
    → ℕ
    → Result Error (Unit {0}) × Aggregator × D
distribute_rewards ids write agg db pool_authority rewards oc sc =
    elim (reward_batches ids agg pool_authority rewards oc sc) [
      | err e ↦ (err e, agg, db)
      | ok batches ↦
          let (r, db') = write_batches write db batches in
          (r, cleaned agg rewards.last_hash_at r, db')
    ]
