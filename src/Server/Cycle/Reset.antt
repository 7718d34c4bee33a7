-- ===== src/Server/Cycle/Reset.antt =====
-- What a reset leaves of the old challenge.
use mathlib.Core.Path.{subst}
use ore_pool.Prelude.{
  ℕ, zero, suc, ◌≡◌, refl, ap, ◌∙◌, [], none, some, Result, ok, err, arith, Result-cases,
  Bool-cases, false, inl, inr, ◌==◌, if◌then◌else◌, true,
}
use ore_pool.Prelude.Store.{get, put, get-put}
use ore_pool.Prelude.Int.{ℤ}
use ore_pool.Api.State.{Addresses, Pool}
use ore_pool.Server.Error.{Error}
use ore_pool.Server.Rpc.{Rpc, OreProof}
use ore_pool.Server.State.{ServerState}
use ore_pool.Server.Database.{equal_ℤ}
use ore_pool.Server.Operator.{Operator}
use ore_pool.Server.Operator.Reads.{get_pool, get_proof, get_cutoff, min_difficulty}
use ore_pool.Server.Aggregator.{Aggregator, Challenge, Winner, as_u64}
use ore_pool.Server.Aggregator.Invariant.{IsConsistent, IsBest}
use ore_pool.Server.Cycle.{Surroundings, update_loop, reset, check_for_reset, fetch_challenge}

-- The aggregator with a new challenge, a key for its contributions, and all else as before.
abbrev pub opened : Aggregator → Challenge → Aggregator
opened agg challenge = record agg {
  challenge = challenge;
  contributions = put (as_u64 challenge.lash_hash_at) [] agg.contributions;
}

-- The accumulators are set back as well.
abbrev pub restarted : Aggregator → Challenge → Pool → Aggregator
restarted agg challenge pool = record (opened agg challenge) {
  total_score = 0;
  winner = none;
  num_members = pool.last_total_members;
}

module _ {R : Type 0} (rpc : Rpc R) (ids : Addresses) (operator : Operator)
    (env : Surroundings) where
  abbrev pub fetched : ServerState R → Result Error Challenge × R
  fetched s = update_loop rpc ids operator env 10 s.aggregator.challenge.lash_hash_at s.outside

  abbrev pub pool_after : ServerState R → Result Error Pool × R
  pool_after s = get_pool rpc ids operator (fetched s).1

  pub reset_unfetched :
      (s : ServerState R) (e : Error)
      → (fetched s).0 ≡ err e
      → reset rpc ids operator env s ≡ (err e, record s { outside = (fetched s).1 })
  unfolding reset
  reset_unfetched s e h = ground (arith, h)

  pub reset_half :
      (s : ServerState R) (challenge : Challenge) (e : Error)
      → (fetched s).0 ≡ ok challenge
      → (pool_after s).0 ≡ err e
      → reset rpc ids operator env s ≡ (
        err e,
        record s { aggregator = opened s.aggregator challenge; outside = (pool_after s).1 },
      )
  unfolding reset
  reset_half s challenge e h h' = ground (arith, h, h')

  pub reset_whole :
      (s : ServerState R) (challenge : Challenge) (pool : Pool)
      → (fetched s).0 ≡ ok challenge
      → (pool_after s).0 ≡ ok pool
      → reset rpc ids operator env s ≡ (
        ok tt,
        record s { aggregator = restarted s.aggregator challenge pool; outside = (pool_after s).1 },
      )
  unfolding reset
  reset_whole s challenge pool h h' = ground (arith, h, h')

  fetch_challenge_hash :
      (proof : OreProof) (r : R) (challenge : Challenge)
      → (fetch_challenge rpc ids operator env proof r).0 ≡ ok challenge
      → challenge.lash_hash_at ≡ proof.last_hash_at
  unfolding fetch_challenge
  fetch_challenge_hash proof r challenge e =
      let cutoff_time = get_cutoff rpc ids operator env.clock proof r in
      elim (Result-cases cutoff_time.0) [
        | inl (t, known) ↦ elim (Result-cases (min_difficulty rpc ids operator cutoff_time.1).0) [
          | inl (least, known') ↦ ground (arith, known, known', e)
          | inr (x, failed) ↦ absurd (ground (arith, known, failed, e))
        ]
        | inr (x, failed) ↦ absurd (ground (arith, failed, e))
      ]

  pub restarted-IsConsistent :
      (agg : Aggregator) (challenge : Challenge) (pool : Pool)
      → IsConsistent env.difficulty (restarted agg challenge pool)
  restarted-IsConsistent agg challenge pool = record {
    current = [];
    current_at = ground (
      arith,
      get-put (as_u64 challenge.lash_hash_at) (as_u64 challenge.lash_hash_at) [] agg.contributions,
    );
    distinct = tt;
    capped = tt;
    scored = refl;
    best = refl;
  }

  -- A challenge that is fetched is a new one.
  pub update_loop_fresh :
      (left : ℕ) (last_hash_at : ℤ) (r : R) (challenge : Challenge)
      → (update_loop rpc ids operator env left last_hash_at r).0 ≡ ok challenge
      → equal_ℤ challenge.lash_hash_at last_hash_at ≡ false
  unfolding update_loop
  update_loop_fresh zero h r challenge e = absurd (ground (arith, e))
  update_loop_fresh (suc left) h r challenge e =
      elim (Result-cases (get_proof rpc ids operator r).0) [
        | inl (proof, known) ↦ elim (Bool-cases (equal_ℤ proof.last_hash_at h)) [
          | inl same ↦
              update_loop_fresh left h (get_proof rpc ids operator r).1 challenge
                (ground (arith, known, same, e))
          | inr other ↦
              let hash =
                fetch_challenge_hash proof (get_proof rpc ids operator r).1 challenge
                  (ground (arith, known, other, e)) in
              ap (λ t. equal_ℤ t h) hash ∙ other
        ]
        | inr (x, failed) ↦ absurd (ground (arith, failed, e))
      ]

  -- A reset that succeeds starts a new challenge with no contributions and no winner, and keeps the
  -- contributions to every other challenge, for the rewards that are still to come.
  pub reset-IsConsistent :
      (s s' : ServerState R)
      → reset rpc ids operator env s ≡ (ok tt, s')
      → IsConsistent env.difficulty s'.aggregator
        × (equal_ℤ s'.aggregator.challenge.lash_hash_at s.aggregator.challenge.lash_hash_at ≡ false)
        × ((k : ℕ)
            → get k s'.aggregator.contributions ≡ (
                if k == as_u64 s'.aggregator.challenge.lash_hash_at
                then some []
                else get k s.aggregator.contributions))
  reset-IsConsistent s s' h = elim (Result-cases (fetched s).0) [
    | inl (challenge, e) ↦ elim (Result-cases (pool_after s).0) [
      | inl (pool, e') ↦
          let w : s' ≡ record s {
            aggregator = restarted s.aggregator challenge pool;
            outside = (pool_after s).1;
          } =
            ground (arith, reset_whole s challenge pool e e', h) in
          rw w (
            restarted-IsConsistent s.aggregator challenge pool,
            update_loop_fresh 10 _ s.outside challenge e,
            λ k. get-put k (as_u64 challenge.lash_hash_at) [] s.aggregator.contributions,
          )
      | inr (x, e') ↦ absurd (ground (arith, reset_half s challenge x e e', h))
    ]
    | inr (x, e) ↦ absurd (ground (arith, reset_unfetched s x e, h))
  ]

  stale :
      (agg : Aggregator) (challenge : Challenge) (w : Winner)
      → agg.winner ≡ some w
      → ¬ IsConsistent env.difficulty (opened agg challenge)
  stale agg challenge w won v =
      let read =
        get-put (as_u64 challenge.lash_hash_at) (as_u64 challenge.lash_hash_at) []
          agg.contributions in
      let none_left : v.current ≡ [] = ground (arith, v.current_at, read) in
      let best : IsBest env.difficulty [] (some w) =
        subst (λ o. IsBest env.difficulty [] o) won
          (subst (λ cs. IsBest env.difficulty cs agg.winner) none_left v.best) in
      best.2

  -- When the pool's account cannot be read after the new challenge was, the reset fails half way:
  -- the winner of the old challenge stays, with no contribution to the new one, so the accumulators
  -- no longer describe the contributions; and if the node reports the new challenge when it is
  -- asked again, the check before the next submission does not ask for another reset.
  pub reset_stale :
      (s : ServerState R) (challenge : Challenge) (e : Error) (w : Winner) (proof : OreProof)
      → (fetched s).0 ≡ ok challenge
      → (pool_after s).0 ≡ err e
      → s.aggregator.winner ≡ some w
      → (get_proof rpc ids operator (pool_after s).1).0 ≡ ok proof
      → equal_ℤ proof.last_hash_at challenge.lash_hash_at ≡ true
      → ((reset rpc ids operator env s).1.aggregator.winner ≡ some w)
        × (get
              (as_u64 challenge.lash_hash_at)
              (reset rpc ids operator env s).1.aggregator.contributions
            ≡ some [])
        × (¬ IsConsistent env.difficulty (reset rpc ids operator env s).1.aggregator)
        × ((check_for_reset rpc ids operator env (reset rpc ids operator env s).1).0 ≡ ok false)
  unfolding check_for_reset
  reset_stale s challenge e w proof h h' won known same = rw (reset_half s challenge e h h') (
    won,
    ground (
      arith,
      get-put (as_u64 challenge.lash_hash_at) (as_u64 challenge.lash_hash_at) []
          s.aggregator.contributions,
    ),
    stale s.aggregator challenge w won,
    ground (arith, known, same),
  )
