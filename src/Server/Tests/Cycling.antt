-- ===== src/Server/Tests/Cycling.antt =====
-- server/src/aggregator.rs and main.rs: the end of a round.
use ore_pool.Prelude.{
  ℕ, ◌≡◌, refl, ok, err, [], ◌∷◌, List, some, none, true, false, ◌==◌, if◌then◌else◌,
}
use ore_pool.Prelude.Int.{pos, ◌+ℤ◌, ◌-ℤ◌}
use ore_pool.Prelude.Store.{get, put}
use ore_pool.Api.Sample.{ids}
use ore_pool.Server.Error.{solana_program}
use ore_pool.Server.Aggregator.{Aggregator, Challenge, as_u64, Contribution}
use ore_pool.Api.State.{Pool}
use ore_pool.Server.Aggregator.Invariant.{IsConsistent}
use ore_pool.Server.Database.{equal_ℤ}
use ore_pool.Server.State.{ServerState}
use ore_pool.Server.Operator.{cutoff}
use ore_pool.Server.Operator.Reads.{
  get_pool, get_proof, get_cutoff, min_difficulty, get_config, fetch_stakers,
}
use ore_pool.Server.Cycle.{
  reset, check_for_reset, update_challenge, update_loop, fetch_challenge, new_aggregator,
  submit_and_reset, receive_all,
}
use ore_pool.Server.Cycle.Reset.{fetched, pool_after, reset-IsConsistent, reset_stale}
use ore_pool.Server.Cycle.Round.{IsCurrent}
use ore_pool.Server.Tests.Round.{by, won}
use ore_pool.Server.Cycle.Tally.{Shows, take_all, first_of, capped?, receive_all-Shows-reset}
use ore_pool.Server.Tasks.{Steps, Paid, stays, then_step, submitted}
use ore_pool.Server.Tasks.Invariant.{Steps-IsCurrent_served}
use ore_pool.Server.Tests.Node.{node, operator, env, pool, serving}

abbrev after : ServerState ℕ
after = (reset (node true) ids operator env (serving [])).1

resets : reset (node true) ids operator env (serving []) ≡ (ok tt, after)
unfolding reset update_challenge update_loop get_proof get_pool fetch_challenge get_cutoff
    min_difficulty get_config
resets = refl

reset-IsConsistent_example :
    IsConsistent env.difficulty after.aggregator
    × (equal_ℤ after.aggregator.challenge.lash_hash_at (pos 10) ≡ false)
    × ((k : ℕ)
        → get k after.aggregator.contributions ≡ (
            if k == as_u64 after.aggregator.challenge.lash_hash_at
            then some []
            else get k (serving []).aggregator.contributions))
reset-IsConsistent_example =
    reset-IsConsistent (node true) ids operator env (serving []) after resets

abbrev next_challenge : Challenge
next_challenge = record {
  challenge = [];
  lash_hash_at = pos 20;
  min_difficulty = 3;
  cutoff_time = 45;
}

fetches : (fetched (node false) ids operator env (serving [])).0 ≡ ok next_challenge
unfolding update_loop get_proof fetch_challenge get_cutoff min_difficulty get_config cutoff ◌+ℤ◌
    ◌-ℤ◌
fetches = refl

abbrev half_reset : ServerState ℕ
half_reset = (reset (node false) ids operator env (serving [])).1

unreadable : (pool_after (node false) ids operator env (serving [])).0 ≡ err solana_program
unfolding get_pool
unreadable = refl

asked_again :
    (get_proof
      (node false)
      ids
      operator
      (pool_after (node false) ids operator env (serving [])).1).0
    ≡ ok (record { challenge = []; last_hash_at = pos 20 })
unfolding get_proof
asked_again = refl

reset_stale_example :
    (half_reset.aggregator.winner ≡ some (won 4))
    × (get 20 half_reset.aggregator.contributions ≡ some [])
    × (¬ IsConsistent env.difficulty half_reset.aggregator)
    × ((check_for_reset (node false) ids operator env half_reset).0 ≡ ok false)
reset_stale_example =
    reset_stale (node false) ids operator env (serving []) next_challenge solana_program (won 4)
      (record { challenge = []; last_hash_at = pos 20 }) fetches unreadable refl asked_again refl

abbrev started : Aggregator
started = record {
  challenge = next_challenge;
  contributions = (20, []) ∷ [];
  total_score = 0;
  winner = none;
  num_members = 2;
  stake = [];
}

abbrev running : ServerState ℕ
running = record (serving []) { outside = 4 }

starts : new_aggregator (node true) ids operator env (serving []) ≡ (ok started, running)
unfolding new_aggregator get_proof get_pool fetch_challenge get_cutoff min_difficulty get_config
    cutoff fetch_stakers put ◌+ℤ◌ ◌-ℤ◌
starts = refl

pool_readable : (r : ℕ) → (p : Pool) × ((get_pool (node true) ids operator r).0 ≡ ok p)
unfolding get_pool
pool_readable r = (pool, refl)

abbrev served : ServerState ℕ
served = record running { aggregator = started }

abbrev turned : ServerState ℕ
turned = (submit_and_reset (node true) ids operator env served).1

abbrev steps : Steps (node true) ids operator env served turned
steps = then_step (stays served) (submitted served)

Steps-IsCurrent_served_example :
    IsCurrent (λ k. Paid (node true) ids operator env k steps) env turned.aggregator
Steps-IsCurrent_served_example =
    Steps-IsCurrent_served (node true) ids operator env pool_readable (serving []) running started
      starts steps

abbrev arriving : List Contribution
arriving = by 5 4 ∷ by 6 7 ∷ by 5 9 ∷ []

receive_all-Shows-reset_example :
    Shows env.difficulty
      (receive_all (node true) ids operator env arriving after).1.aggregator
      (take_all arriving [])
    × ((m : ℕ) → first_of m (take_all arriving []) ≡ capped? (first_of m arriving))
receive_all-Shows-reset_example =
    receive_all-Shows-reset (node true) ids operator env (serving []) after arriving resets
