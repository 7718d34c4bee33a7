-- ===== src/Server/Cycle.antt =====
-- server/src/aggregator.rs: from one challenge to the next.
pub mod Attestation
pub mod Commitment
pub mod Reset
pub mod Round
pub mod Tally
use ore_pool.Prelude.{
  ℕ, zero, suc, ◌≡◌, List, [], ◌∷◌, ◌++◌, Option, none, some, Bool, true, false, not, Result, ok,
  err, ltb, if◌then◌else◌,
}
use ore_pool.Prelude.Store.{put}
use ore_pool.Prelude.Int.{ℤ}
use ore_pool.Api.State.{Addresses, Pubkey, Pool, pool_pda, pool_proof_pda}
use ore_pool.Api.Sdk.Operations.{build_submit}
use ore_pool.Server.Error.{Error, internal}
use ore_pool.Server.Io.{Io, ◌>>=◌, ◌>>◌, done, fail, lift, attempt}
use ore_pool.Server.Rpc.{Rpc, OreProof, OreBus, ore_auth, pool_instruction}
use ore_pool.Server.State.{ServerState, from_outside, look, change, set_aggregator}
use ore_pool.Server.Submit.{submit_and_confirm_instructions}
use ore_pool.Server.Database.{equal_ℤ}
use ore_pool.Server.Operator.{Operator, get_boost_mine_accounts}
use ore_pool.Server.Operator.Reads.{get_pool, get_proof, get_cutoff, min_difficulty, fetch_stakers}
use ore_pool.Server.Aggregator.{
  Aggregator, Challenge, Contribution, Solution, Winner, as_u64, insert, winner_of,
}
use ore_pool.Server.Cycle.Attestation.{attestation_of}

-- What a submission takes from elsewhere: the address of the clock, ore's buses by number, a bus
-- drawn at random, the text of a key, and the hash of drillx and of the attestation.
pub record Surroundings : Type 0 where
  pub clock : Pubkey
  pub bus_addresses : List Pubkey
  pub bus_address : ℕ → Pubkey
  pub drawn_bus : Pubkey
  pub pubkey_text : Pubkey → List ℕ
  pub sha3 : List ℕ → List ℕ
  pub difficulty : Solution → ℕ

-- `let _ =` of a method that changes the aggregator only when it succeeds
abbrev pub settled : Aggregator → Result Error Aggregator → Aggregator
settled before (ok after) = after
settled before (err e) = before

module _ {R : Type 0} (rpc : Rpc R) (ids : Addresses) (operator : Operator)
    (env : Surroundings) where
  unfoldable pub check_for_reset : Io (ServerState R) Bool
  check_for_reset = do
    last_hash_at ← look (λ s. s.aggregator.challenge.lash_hash_at)
    proof ← from_outside (get_proof rpc ids operator)
    done (not (equal_ℤ proof.last_hash_at last_hash_at))

  -- The challenge of a proof account, with the time and the difficulty asked for after it.
  unfoldable pub fetch_challenge : OreProof → Io R Challenge
  fetch_challenge proof = do
    cutoff_time ← get_cutoff rpc ids operator env.clock proof
    least ← min_difficulty rpc ids operator
    done (record {
      challenge = proof.challenge;
      lash_hash_at = proof.last_hash_at;
      min_difficulty = least;
      cutoff_time = cutoff_time;
    })

  -- The loop with `left` attempts left.
  unfoldable pub update_loop : (left : ℕ) (last_hash_at : ℤ) → Io R Challenge
  update_loop zero last_hash_at = fail (internal "failed to fetch new challenge")
  update_loop (suc left) last_hash_at = do
    proof ← get_proof rpc ids operator
    (if equal_ℤ proof.last_hash_at last_hash_at
        then update_loop left last_hash_at
        else fetch_challenge proof)

  abbrev pub max_retries : ℕ
  max_retries = 10

  unfoldable pub update_challenge : Io (ServerState R) (Unit {0})
  update_challenge = do
    agg ← look (λ s. s.aggregator)
    challenge ← from_outside (update_loop max_retries agg.challenge.lash_hash_at)
    set_aggregator (record agg { challenge = challenge })

  unfoldable pub reset : Io (ServerState R) (Unit {0})
  unfolding update_challenge
  reset = do
    update_challenge
    updated ← look (λ s. s.aggregator)
    let opened = record updated {
      contributions = put (as_u64 updated.challenge.lash_hash_at) [] updated.contributions;
    }
    set_aggregator opened
    pool ← from_outside (get_pool rpc ids operator)
    set_aggregator
        (record opened { total_score = 0; winner = none; num_members = pool.last_total_members })

  -- The bus with the largest balance, of those that decode; none of them, the one drawn.
  unfoldable pub top_bus : (top_bus_balance : ℕ) (top : Pubkey) → List (Option (List ℕ)) → Pubkey
  top_bus balance top [] = top
  top_bus balance top (none ∷ accounts) = top_bus balance top accounts
  top_bus balance top (some data_bytes ∷ accounts) = elim (rpc.bus_from_bytes data_bytes) [
    | none ↦ top_bus balance top accounts
    | some bus ↦ elim (ltb balance bus.rewards) [
      | true ↦ top_bus bus.rewards (env.bus_address bus.id) accounts
      | false ↦ top_bus balance top accounts
    ]
  ]

  unfoldable pub find_bus : Io R Pubkey
  find_bus = do
    accounts ← rpc.get_multiple_accounts env.bus_addresses
    done (top_bus 0 env.drawn_bus accounts)

  -- The part of `submit_and_reset` before the reset: the transaction of the best solution.
  unfoldable pub submit_winner : Io (ServerState R) (Unit {0})
  submit_winner = do
    agg ← look (λ s. s.aggregator)
    winner ← lift (winner_of agg)
    attestation ← lift (attestation_of env.pubkey_text env.sha3 agg)
    bus ← from_outside find_bus
    sig ← from_outside (
        submit_and_confirm_instructions rpc operator.keypair
          (ore_auth (pool_proof_pda ids (pool_pda ids operator.keypair).0).0
            ∷ pool_instruction (
                build_submit ids operator.keypair winner.solution.d winner.solution.n attestation
                  bus (get_boost_mine_accounts operator.boost_accounts))
            ∷ [])
          1_500_000 500_000)
    done tt

  unfoldable pub submit_and_reset : Io (ServerState R) (Unit {0})
  submit_and_reset = do
    needs_reset ← check_for_reset
    (if needs_reset then reset else submit_winner >> reset)

  -- A contribution that was received is inserted; an error is dropped.
  unfoldable pub receive : Contribution → Io (ServerState R) (Unit {0})
  receive contribution = change (λ s. record s {
    aggregator = settled s.aggregator (insert env.difficulty s.aggregator contribution);
  })

  unfoldable pub receive_all : List Contribution → Io (ServerState R) (Unit {0})
  receive_all [] = done tt
  receive_all (c ∷ cs) = receive c >> receive_all cs

  -- An error of a submission is logged.
  unfoldable pub try_submit : Io (ServerState R) (Unit {0})
  try_submit = do submitted ← attempt submit_and_reset; done tt

  -- Without contributions that score, the first one is waited for and submitted; nothing comes when
  -- the channel is closed.
  unfoldable pub wait_for_first : Option Contribution → Io (ServerState R) (Unit {0})
  wait_for_first none = done tt
  wait_for_first (some c) = receive c >> try_submit

  -- One turn of the loop of `process_contributions`: `arrived` are the contributions received before
  -- the cutoff, and `first` is what comes after it.
  unfoldable pub process_round :
      (arrived : List Contribution) (first : Option Contribution) → Io (ServerState R) (Unit {0})
  process_round arrived first = do
    receive_all arrived
    total_score ← look (λ s. s.aggregator.total_score)
    (if ltb 0 total_score then try_submit else wait_for_first first)

  -- `Aggregator::new`
  unfoldable pub new_aggregator : Io (ServerState R) Aggregator
  new_aggregator = do
    pool ← from_outside (get_pool rpc ids operator)
    proof ← from_outside (get_proof rpc ids operator)
    challenge ← from_outside (fetch_challenge proof)
    stake ← fetch_stakers rpc ids operator operator.boost_accounts []
    done (record {
      challenge = challenge;
      contributions = put (as_u64 challenge.lash_hash_at) [] [];
      total_score = 0;
      winner = none;
      num_members = pool.last_total_members;
      stake = stake;
    })
