-- ===== src/Server/Tests/Mirroring.antt =====
-- server/src/database.rs and program/src: a reward that is credited and then attributed.
use ore_pool.Prelude.{
  ℕ, ◌≡◌, Result, ok, err, List, refl, [], ◌∷◌, true, false, arith, Bool-cases, inl, inr, ◌==◌,
}
use ore_pool.Prelude.Int.{pos, ◌+ℤ◌}
use ore_pool.Prelude.Store.{get, put}
use ore_pool.Prelude.Words.{to_le_bytes, from_le_bytes}
use ore_pool.Api.Instruction.{read_amount}
use ore_pool.Api.Sdk.{build_attribute}
use ore_pool.Program.Dispatch.{run_instruction}
use ore_pool.Program.User.{process_attribute}
use ore_pool.Api.Sample.{ids}
use ore_pool.Api.State.{Pubkey, Member, pool_pda, member_pda}
use ore_pool.Program.Runtime.{Chain}
use ore_pool.Program.Sample.{rt, pool_of}
use ore_pool.Server.Database.{
  MemberRow, Members, read_member, write_member_total_balances, update_total_balance,
}
use ore_pool.Server.Rewards.{
  Distribution, distribute_rewards, reward_batches, rewards_distribution,
  rewards_distribution_boost, rewards_distribution_operator, proportion, mine_rewards,
  total_miner_rewards, split_stake_rewards_for_miners, write_batches,
}
use ore_pool.Server.Rewards.Owed.{Credits}
use ore_pool.Server.Rewards.Credits.{distribute_rewards-Credits}
use ore_pool.Server.Attribution.Landing.{
  Fate, Ends, none_left, next_ends, land_task, land_tasks, round_tasks, deliver_all,
}
use ore_pool.Server.Attribution.{unsynced, full_buffers}
use ore_pool.Server.Error.{Error, tokio_postgres}
use ore_pool.Server.Attribution.History.{History-IsInStep, start, next}
use ore_pool.Server.Attribution.Steps.{IsInStep, rewarded, attributed, settled}
use ore_pool.Server.Tests.Payouts.{agg, reward, fits}

abbrev account : Pubkey → Pubkey
account m = (member_pda ids m (pool_pda ids 9).0).0

abbrev row : Pubkey → MemberRow
row m = record {
  address = account m;
  id = pos m;
  authority = m;
  pool_address = (pool_pda ids 9).0;
  total_balance = pos 4;
  is_approved = false;
  is_kyc = false;
  is_synced = true;
}

abbrev rows : Members
rows = row 5 ∷ row 6 ∷ []

abbrev enrolled : Pubkey → Member
enrolled m = record {
  id = m;
  pool = (pool_pda ids 9).0;
  authority = m;
  balance = 4;
  total_balance = 4;
}

abbrev chain : Chain (ℕ × ℕ)
chain = record {
  pools = ((pool_pda ids 9).0, pool_of 9) ∷ [];
  members = (account 5, enrolled 5) ∷ (account 6, enrolled 6) ∷ [];
  shares = [];
  outside = (0, 0);
}

abbrev credited : Members
credited = (distribute_rewards ids write_member_total_balances agg rows 9 reward 10 50).2

in_step : IsInStep rt ids 9 chain rows
unfolding member_pda pool_pda read_member get
in_step = record {
  unique = (refl, (refl, tt));
  placed = ((refl, omega arith), ((refl, omega arith), tt));
  mirrored = λ a r read marked. elim (Bool-cases (account 5 == a)) [
    | inl e ↦ (enrolled 5, ground (arith, e), ground (arith, e, read))
    | inr e ↦ elim (Bool-cases (account 6 == a)) [
      | inl e' ↦ (enrolled 6, ground (arith, e, e'), ground (arith, e, e', read))
      | inr e' ↦ absurd (ground (arith, e, e', read))
    ]
  ];
}

abbrev fifth : MemberRow
fifth = record (row 5) { total_balance = pos 345; is_synced = false }

-- Rows 5 and 6 are credited, and row 9 is not there, so that the round has one batch of two.
abbrev tasks : List (List MemberRow)
tasks = round_tasks credited

one-Ends : (b : List MemberRow) → Ends (b ∷ []) (b ∷ [])
one-Ends b = next_ends [] [] b refl none_left

all_end : Ends tasks (round_tasks credited)
unfolding round_tasks unsynced full_buffers distribute_rewards reward_batches rewards_distribution
    rewards_distribution_boost rewards_distribution_operator proportion mine_rewards
    total_miner_rewards split_stake_rewards_for_miners get pool_pda member_pda write_batches
    write_member_total_balances update_total_balance ◌+ℤ◌
all_end = one-Ends _

fifth_read :
    read_member (land_tasks rt ids 9 (λ b. Fate.unheard) chain tasks credited).1 (account 5)
    ≡ ok fifth
unfolding read_member land_tasks land_task round_tasks unsynced full_buffers distribute_rewards
    reward_batches rewards_distribution rewards_distribution_boost rewards_distribution_operator
    proportion mine_rewards total_miner_rewards split_stake_rewards_for_miners get pool_pda
    member_pda write_batches write_member_total_balances update_total_balance ◌+ℤ◌ deliver_all
    run_instruction build_attribute process_attribute read_amount to_le_bytes from_le_bytes put
fifth_read = refl

-- A round of which the server hears nothing, and then a balance that a member has written itself.
abbrev round : Chain (ℕ × ℕ) × Members
round = land_tasks rt ids 9 (λ b. Fate.unheard) chain tasks credited

abbrev paid : Chain (ℕ × ℕ) × Members
paid = land_task rt ids 9 Fate.confirmed round.0 (fifth ∷ []) round.1

History-IsInStep_example : IsInStep rt ids 9 paid.0 paid.1
History-IsInStep_example = History-IsInStep rt ids 9 in_step (
    next
      (next (next start (rewarded write_member_total_balances agg 9 reward 10 50 (λ rs d rs' h. h)))
        (attributed (λ b. Fate.unheard) tasks all_end))
      (settled Fate.confirmed (account 5) fifth fifth_read))

-- The connection is lost before the operator's batch, which is the only one of one row.
abbrev lost : Members → Distribution → Result Error Members
lost rs (x ∷ []) = err tokio_postgres
lost rs [] = write_member_total_balances rs []
lost rs (x ∷ y ∷ d) = write_member_total_balances rs (x ∷ y ∷ d)

lost-IsWriting :
    (rs : Members) (d : Distribution) (rs' : Members)
    → lost rs d ≡ ok rs'
    → write_member_total_balances rs d ≡ ok rs'
lost-IsWriting rs (x ∷ []) rs' h = absurd (ground (arith, h))
lost-IsWriting rs [] rs' h = h
lost-IsWriting rs (x ∷ y ∷ d) rs' h = h

distribute_rewards-Credits_example :
    Credits rows (distribute_rewards ids lost agg rows 9 reward 10 50).2 1000
distribute_rewards-Credits_example =
    distribute_rewards-Credits ids agg fits lost lost-IsWriting rows 9 reward 10 50 in_step.unique
      ((4, refl), ((4, refl), tt)) (omega arith) (omega arith) (omega arith)
