-- ===== src/Server/Cycle/Round.antt =====
-- One turn of the loop over contributions keeps the accumulators true to the contributions.
use ore_pool.Prelude.{
  ℕ, ◌≡◌, ◌≢◌, refl, List, [], ◌∷◌, Option, none, some, Result, ok, err, arith, Result-cases, inl,
  inr, ◌⊎◌, ltb,
}
use ore_pool.Prelude.Store.{get}
use ore_pool.Api.State.{Addresses, Pool}
use ore_pool.Server.Error.{Error}
use ore_pool.Server.Io.{Keeps, >>=-Keeps, same-Keeps, if-Keeps}
use ore_pool.Server.Rpc.{Rpc}
use ore_pool.Server.State.{ServerState}
use ore_pool.Server.Operator.{Operator}
use ore_pool.Server.Operator.Reads.{get_pool}
use ore_pool.Server.Aggregator.{Aggregator, Contribution, as_u64, insert, get_current_contributions}
use ore_pool.Server.Aggregator.Invariant.{IsConsistent, insert-IsConsistent}
use ore_pool.Server.Cycle.{
  Surroundings, settled, check_for_reset, reset, submit_winner, submit_and_reset, receive,
  receive_all, process_round, try_submit, wait_for_first,
}
use ore_pool.Server.Cycle.Reset.{fetched, restarted-IsConsistent, reset_unfetched, reset_whole}

-- The accumulators describe the contributions to the current challenge, unless those are gone for a
-- reason that the challenge's hash gives; then the aggregator takes no contribution until it is
-- reset.
abbrev pub IsCurrent : (ℕ → Type 0) → Surroundings → Aggregator → Type 0
IsCurrent Gone env agg =
    ((get (as_u64 agg.challenge.lash_hash_at) agg.contributions ≡ none)
      × Gone (as_u64 agg.challenge.lash_hash_at))
    ⊎ IsConsistent env.difficulty agg

module _ {R : Type 0} (rpc : Rpc R) (ids : Addresses) (operator : Operator) (env : Surroundings)
    (Gone : ℕ → Type 0) where
  -- A submission changes only what lies outside.
  submit_winner-aggregator :
      (s : ServerState R) → (submit_winner rpc ids operator env s).1.aggregator ≡ s.aggregator
  unfolding submit_winner
  submit_winner-aggregator s = ground arith

  check_for_reset-aggregator :
      (s : ServerState R) → (check_for_reset rpc ids operator env s).1.aggregator ≡ s.aggregator
  unfolding check_for_reset
  check_for_reset-aggregator s = ground arith

  -- Without contributions to the current challenge nothing is inserted.
  insert_gone :
      (c : Contribution) (agg agg' : Aggregator)
      → insert env.difficulty agg c ≡ ok agg'
      → get (as_u64 agg.challenge.lash_hash_at) agg.contributions ≢ none
  unfolding insert get_current_contributions
  insert_gone c agg agg' e gone = ground (arith, gone, e)

  abbrev Current : ServerState R → Type 0
  Current s = IsCurrent Gone env s.aggregator

  insert-IsCurrent :
      (c : Contribution) (agg agg' : Aggregator)
      → insert env.difficulty agg c ≡ ok agg'
      → IsCurrent Gone env agg
      → IsCurrent Gone env agg'
  insert-IsCurrent c agg agg' e (inr v) = inr (insert-IsConsistent env.difficulty agg agg' c e v)
  insert-IsCurrent c agg agg' e (inl gone) = absurd (insert_gone c agg agg' e gone.0)

  settled-IsCurrent :
      (c : Contribution) (agg : Aggregator) (r : Result Error Aggregator)
      → insert env.difficulty agg c ≡ r
      → IsCurrent Gone env agg
      → IsCurrent Gone env (settled agg r)
  settled-IsCurrent c agg (ok agg') e v = insert-IsCurrent c agg agg' e v
  settled-IsCurrent c agg (err x) e v = v

  pub receive-IsCurrent : (c : Contribution) → Keeps Current (receive rpc ids operator env c)
  unfolding receive
  receive-IsCurrent c s v =
      settled-IsCurrent c s.aggregator (insert env.difficulty s.aggregator c) refl v

  receive_all-IsCurrent :
      (cs : List Contribution) → Keeps Current (receive_all rpc ids operator env cs)
  unfolding receive_all
  receive_all-IsCurrent [] s v = v
  receive_all-IsCurrent (c ∷ cs) s v =
      >>=-Keeps Current (receive rpc ids operator env c) (λ u. receive_all rpc ids operator env cs)
        (receive-IsCurrent c) (λ u. receive_all-IsCurrent cs) s v

  module _ (readable : (r : R) → (pool : Pool) × ((get_pool rpc ids operator r).0 ≡ ok pool)) where
    reset-IsCurrent : Keeps Current (reset rpc ids operator env)
    reset-IsCurrent s v = elim (Result-cases (fetched rpc ids operator env s).0) [
      | inl (challenge, e) ↦
          let (pool, e') = readable (fetched rpc ids operator env s).1 in
          rw (reset_whole rpc ids operator env s challenge pool e e')
            (inr (restarted-IsConsistent rpc ids operator env s.aggregator challenge pool))
      | inr (x, e) ↦ rw (reset_unfetched rpc ids operator env s x e) v
    ]

    -- Whether it submits, resets or fails on the way, `submit_and_reset` keeps the accumulators
    -- true to the contributions, if the pool's account can always be read.
    pub submit_and_reset-IsCurrent : Keeps Current (submit_and_reset rpc ids operator env)
    unfolding submit_and_reset
    submit_and_reset-IsCurrent =
        >>=-Keeps Current (check_for_reset rpc ids operator env) _
          (same-Keeps (λ s. s.aggregator) (IsCurrent Gone env)
            (check_for_reset rpc ids operator env) check_for_reset-aggregator)
          (λ needs_reset. if-Keeps Current needs_reset _ _ reset-IsCurrent (
            >>=-Keeps Current (submit_winner rpc ids operator env) (λ u. reset rpc ids operator env)
              (same-Keeps (λ s. s.aggregator) (IsCurrent Gone env)
                (submit_winner rpc ids operator env) submit_winner-aggregator)
              (λ u. reset-IsCurrent)))

    try_submit-IsCurrent : Keeps Current (try_submit rpc ids operator env)
    unfolding try_submit
    try_submit-IsCurrent s v = submit_and_reset-IsCurrent s v

    wait_for_first-IsCurrent :
        (first : Option Contribution) → Keeps Current (wait_for_first rpc ids operator env first)
    unfolding wait_for_first
    wait_for_first-IsCurrent none s v = v
    wait_for_first-IsCurrent (some c) s v =
        >>=-Keeps Current (receive rpc ids operator env c) (λ u. try_submit rpc ids operator env)
          (receive-IsCurrent c) (λ u. try_submit-IsCurrent) s v

    -- A turn of the loop over contributions keeps the accumulators true to the contributions,
    -- whatever arrives and whatever fails, if the pool's account can always be read.
    pub process_round-IsCurrent :
        (arrived : List Contribution) (first : Option Contribution) (s : ServerState R)
        → IsCurrent Gone env s.aggregator
        → IsCurrent Gone env (process_round rpc ids operator env arrived first s).1.aggregator
    unfolding process_round
    process_round-IsCurrent arrived first =
        >>=-Keeps Current (receive_all rpc ids operator env arrived) _
          (receive_all-IsCurrent arrived)
          (λ u s.
            if-Keeps Current (ltb 0 s.aggregator.total_score) (try_submit rpc ids operator env)
              (wait_for_first rpc ids operator env first) try_submit-IsCurrent
              (wait_for_first-IsCurrent first) s)
