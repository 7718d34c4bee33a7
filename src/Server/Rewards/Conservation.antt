-- ===== src/Server/Rewards/Conservation.antt =====
-- What one reward is split into, all recipients together.
use ore_pool.Prelude.{
  ℕ, ◌+◌, ◌-◌, ◌*◌, ◌/◌, ◌≤◌, ◌<◌, ◌≡◌, ok, List, Option, none, some, map, sum, arith, >>=-eq-ok,
  ok-injective, ok_or,
}
use ore_pool.Prelude.Words.{u64_mod, wrapping_sub, wrapping_mul}
use ore_pool.Prelude.Ratio.{percent_split, percent_split₂}
use ore_pool.Prelude.Store.{get}
use ore_pool.Api.State.{Addresses, Pubkey, pool_pda, member_pda}
use ore_pool.Server.Aggregator.{Aggregator, Contribution, MinerContributions, StakerBalances}
use ore_pool.Server.Aggregator.Invariant.{scores}
use ore_pool.Server.Rewards.{
  Rewards, BoostEvent, Distribution, reward_or, mine_rewards, split_stake_rewards_for_miners,
  total_miner_rewards, operator_boost, rewards_distribution, rewards_distribution_boost,
  rewards_distribution_operator, reward_batches,
}
use ore_pool.Server.Rewards.Bounds.{amounts, amounts-le}

abbrev pub balances : StakerBalances → List ℕ
balances = map (λ (e : Pubkey × ℕ). e.1)

-- Neither the scores of a round nor the balances of a mint add up past a `u64`.
pub record Fits (agg : Aggregator) : Type 0 where
  pub scores_fit :
      (at : ℕ) (cs : MinerContributions)
      → get at agg.contributions ≡ some cs
      → sum (scores cs) < u64_mod
  pub balances_fit :
      (mint : Pubkey) (stakers : StakerBalances)
      → get mint agg.stake ≡ some stakers
      → sum (balances stakers) < u64_mod

-- The stakers' part of one boost.
abbrev pub staker_part : Option BoostEvent → ℕ → ℕ
staker_part o sc = reward_or o * sc / 100

mine_rewards-eq-sub :
    (r : Rewards)
    → reward_or r.boost_1 + reward_or r.boost_2 + reward_or r.boost_3 ≤ r.base
    → r.base < u64_mod
    → mine_rewards r + (reward_or r.boost_1 + reward_or r.boost_2 + reward_or r.boost_3) ≡ r.base
unfolding mine_rewards
mine_rewards-eq-sub r le fits = omega arith

-- One boost, split between the miners, the stakers and the operator.
boost_within :
    (o : Option BoostEvent) (oc sc : ℕ)
    → oc + sc ≤ 100
    → split_stake_rewards_for_miners o oc sc + staker_part o sc + operator_boost o oc ≤ reward_or o
unfolding split_stake_rewards_for_miners
boost_within none oc sc le = omega arith
boost_within (some b) oc sc le =
    let e : wrapping_sub (wrapping_sub 100 oc) sc ≡ 100 - oc - sc = omega arith in
    rw e (omega (arith, percent_split b.reward (100 - oc - sc) sc oc (omega arith)))

-- The mining reward, split between the miners and the operator.
mine_within :
    (m oc : ℕ) → oc ≤ 100 → wrapping_mul m (wrapping_sub 100 oc) / 100 + wrapping_mul m oc / 100 ≤ m
mine_within m oc le =
    let e : wrapping_sub 100 oc ≡ 100 - oc = omega arith in
    rw e (omega (arith, percent_split₂ m (100 - oc) oc (omega arith)))

-- The parts together, each at its bound.
batches_within :
    (ids : Addresses) (authority pool : Pubkey) (r : Rewards) (oc sc a₀ a₁ a₂ a₃ : ℕ)
    → a₀ ≤ total_miner_rewards r oc sc
    → a₁ ≤ staker_part r.boost_1 sc
    → a₂ ≤ staker_part r.boost_2 sc
    → a₃ ≤ staker_part r.boost_3 sc
    → oc + sc ≤ 100
    → reward_or r.boost_1 + reward_or r.boost_2 + reward_or r.boost_3 ≤ r.base
    → r.base < u64_mod
    → a₀ + (a₁ + (a₂ + (a₃ + ((rewards_distribution_operator ids pool authority r oc).1 + 0 + 0))))
      ≤ r.base
unfolding total_miner_rewards rewards_distribution_operator
batches_within ids authority pool r oc sc a₀ a₁ a₂ a₃ h₀ h₁ h₂ h₃ commissions boosts fits = omega (
  arith,
  mine_rewards-eq-sub r boosts fits,
  mine_within (mine_rewards r) oc (omega arith),
  boost_within r.boost_1 oc sc commissions,
  boost_within r.boost_2 oc sc commissions,
  boost_within r.boost_3 oc sc commissions,
)

module _ (ids : Addresses) (agg : Aggregator) (fit : Fits agg) where
  rewards_distribution-le :
      (pool : Pubkey) (r : Rewards) (oc sc : ℕ) {d : Distribution}
      → rewards_distribution ids agg pool r oc sc ≡ ok d
      → amounts d ≤ total_miner_rewards r oc sc
  unfolding rewards_distribution
  rewards_distribution-le pool r oc sc h =
      let (cs, e, h') = >>=-eq-ok (ok_or (get r.last_hash_at agg.contributions) _) _ h in
      rw (← ok-injective h') (
        amounts-le (λ (c : Contribution). (member_pda ids c.member pool).0)
          (λ (c : Contribution). c.score) _ cs
          (fit.scores_fit r.last_hash_at cs (ground (arith, e))))

  rewards_distribution_boost-le :
      (pool : Pubkey) (o : Option BoostEvent) (sc : ℕ) {d : Distribution}
      → rewards_distribution_boost ids agg pool o sc ≡ ok d
      → amounts d ≤ staker_part o sc
  unfolding rewards_distribution_boost amounts
  rewards_distribution_boost-le pool none sc h = rw (← ok-injective h) (omega arith)
  rewards_distribution_boost-le pool (some b) sc h =
      let (stakers, e, h') = >>=-eq-ok (ok_or (get b.mint agg.stake) _) _ h in
      rw (← ok-injective h') (
        amounts-le (λ (e : Pubkey × ℕ). (member_pda ids e.0 pool).0) (λ (e : Pubkey × ℕ). e.1) _
          stakers (fit.balances_fit b.mint stakers (ground (arith, e))))

  -- However a reward is split, all that the miners, the stakers and the operator are credited is
  -- at most the reward, if the two commissions are at most 100 together and the boosts are part
  -- of the base reward.
  pub reward_batches-le-base :
      (authority : Pubkey) (r : Rewards) (oc sc : ℕ) {batches : List Distribution}
      → reward_batches ids agg authority r oc sc ≡ ok batches
      → oc + sc ≤ 100
      → reward_or r.boost_1 + reward_or r.boost_2 + reward_or r.boost_3 ≤ r.base
      → r.base < u64_mod
      → sum (map amounts batches) ≤ r.base
  unfolding reward_batches amounts
  reward_batches-le-base authority r oc sc h commissions boosts fits =
      let pool = (pool_pda ids authority).0 in
      let (d₀, e₀, h₀) = >>=-eq-ok (rewards_distribution ids agg pool r oc sc) _ h in
      let (d₁, e₁, h₁) = >>=-eq-ok (rewards_distribution_boost ids agg pool r.boost_1 sc) _ h₀ in
      let (d₂, e₂, h₂) = >>=-eq-ok (rewards_distribution_boost ids agg pool r.boost_2 sc) _ h₁ in
      let (d₃, e₃, h₃) = >>=-eq-ok (rewards_distribution_boost ids agg pool r.boost_3 sc) _ h₂ in
      rw (← ok-injective h₃) (
        batches_within ids authority pool r oc sc (amounts d₀) (amounts d₁) (amounts d₂)
          (amounts d₃) (rewards_distribution-le pool r oc sc e₀)
          (rewards_distribution_boost-le pool r.boost_1 sc e₁)
          (rewards_distribution_boost-le pool r.boost_2 sc e₂)
          (rewards_distribution_boost-le pool r.boost_3 sc e₃) commissions boosts fits)
