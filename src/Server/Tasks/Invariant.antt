-- ===== src/Server/Tasks/Invariant.antt =====
-- server/src/main.rs: what holds of the aggregator whatever order the tasks run in.
use mathlib.Core.Path.{subst}
use ore_pool.Prelude.{
  ℕ, ◌≡◌, refl, sym, [], none, Result, ok, err, arith, Result-cases, Bool-cases, inl, inr, ◌==◌,
  ◌⊎◌,
}
use ore_pool.Prelude.Store.{remove, get-remove, get-put, put}
use ore_pool.Api.State.{Addresses, Pool}
use ore_pool.Server.Error.{Error}
use ore_pool.Server.Io.{Io, Keeps, >>=-eq-done}
use ore_pool.Server.Rpc.{Rpc}
use ore_pool.Server.State.{ServerState, from_outside}
use ore_pool.Server.Operator.{Operator}
use ore_pool.Server.Operator.Reads.{get_proof, get_pool, fetch_stakers}
use ore_pool.Server.Aggregator.{MinerContributions, Aggregator, Stakers, as_u64}
use ore_pool.Server.Rewards.{Rewards, distribute_rewards, reward_batches, cleaned, Distribution}
use ore_pool.Server.Cycle.{new_aggregator, fetch_challenge, Surroundings}
use ore_pool.Server.Aggregator.Invariant.{IsConsistent}
use ore_pool.Server.Cycle.Round.{IsCurrent, receive-IsCurrent, submit_and_reset-IsCurrent}
use ore_pool.Server.Webhook.{process_share_account_event}
use ore_pool.Server.Database.{Members}
use ore_pool.Server.Webhook.Client.{introduce}
use ore_pool.Server.Contributor.Contribute.{contribute-contributions}
use ore_pool.Server.Tasks.{
  Step, Steps, commit_stake_and_count, distribute_next, Pays, Paid, contributed, received,
  submitted, posted, distributed, unstaked, told, committed, elsewhere, stays, then_step,
}
use ore_pool.Server.Tasks.Restaking.{
  Restakes, process_share_account_event-Restakes, introduce-Restakes,
  commit_stake_and_count-Restakes, rewards_resource-aggregator,
}

-- The parts of the aggregator that the accumulators are about.
restaked-IsCurrent :
    (Gone : ℕ → Type 0) (env : Surroundings) (agg : Aggregator) (stake : Stakers)
    → IsCurrent Gone env agg
    → IsCurrent Gone env (record agg { stake = stake })
restaked-IsCurrent Gone env agg stake (inl gone) = inl gone
restaked-IsCurrent Gone env agg stake (inr v) = inr (record {
  current = v.current;
  current_at = v.current_at;
  distinct = v.distinct;
  capped = v.capped;
  scored = v.scored;
  best = v.best;
})

map-IsCurrent :
    (P Q : ℕ → Type 0) (env : Surroundings) (agg : Aggregator)
    → ((k : ℕ) → P k → Q k)
    → IsCurrent P env agg
    → IsCurrent Q env agg
map-IsCurrent P Q env agg f (inl (gone, p)) = inl (gone, f _ p)
map-IsCurrent P Q env agg f (inr v) = inr v

-- Contributions that are dropped are those of another challenge, or the current ones are gone.
dropped-IsCurrent :
    (Gone : ℕ → Type 0) (env : Surroundings) (agg : Aggregator) (key : ℕ)
    → Gone key
    → IsCurrent Gone env agg
    → IsCurrent Gone env (record agg { contributions = remove key agg.contributions })
dropped-IsCurrent Gone env agg key why h =
    let now = as_u64 agg.challenge.lash_hash_at in
    elim (Bool-cases (now == key)) [
      | inl e ↦
          let same : key ≡ now = ground (arith, e) in
          inl (ground (arith, e, get-remove now key agg.contributions), subst Gone same why)
      | inr e ↦ elim h [
        | inl (gone, p) ↦ inl (ground (arith, e, gone, get-remove now key agg.contributions), p)
        | inr v ↦ inr (record {
          current = v.current;
          current_at = ground (arith, e, v.current_at, get-remove now key agg.contributions);
          distinct = v.distinct;
          capped = v.capped;
          scored = v.scored;
          best = v.best;
        })
      ]
    ]

cleaned-IsCurrent :
    (Gone : ℕ → Type 0) (env : Surroundings) (agg : Aggregator) (key : ℕ)
    (r : Result Error (Unit {0}))
    → (r ≡ ok tt → Gone key)
    → IsCurrent Gone env agg
    → IsCurrent Gone env (cleaned agg key r)
cleaned-IsCurrent Gone env agg key (ok u) why h = dropped-IsCurrent Gone env agg key (why refl) h
cleaned-IsCurrent Gone env agg key (err e) why h = h

Restakes-IsCurrent :
    {R A : Type 0} (Gone : ℕ → Type 0) (env : Surroundings) (io : Io (ServerState R) A)
    → Restakes io
    → Keeps (λ (s : ServerState R). IsCurrent Gone env s.aggregator) io
Restakes-IsCurrent Gone env io restakes s h =
    let (stake, e) = restakes s in
    subst (IsCurrent Gone env) (sym e) (restaked-IsCurrent Gone env s.aggregator stake h)

module _ {R : Type 0} (rpc : Rpc R) (ids : Addresses) (operator : Operator) where
  distribute_next-cleaned :
      (write : Members → Distribution → Result Error Members) (r : Rewards) (s : ServerState R)
      → (distribute_next ids operator write r s).aggregator
        ≡ cleaned s.aggregator r.last_hash_at
            (distribute_rewards ids write s.aggregator s.members operator.keypair r
              operator.operator_commission operator.staker_commission).0
  unfolding distribute_next distribute_rewards
  distribute_next-cleaned write r s =
      elim (Result-cases (
        reward_batches ids s.aggregator operator.keypair r operator.operator_commission
          operator.staker_commission)) [
            | inl (batches, e) ↦ ground (arith, e)
            | inr (x, e) ↦ ground (arith, e)
          ]

  -- The aggregator that the server starts with has an empty list of contributions to the challenge
  -- that it read, and accumulators that describe it.
  pub new_aggregator-IsConsistent :
      (env : Surroundings) (s s' : ServerState R) (agg : Aggregator)
      → new_aggregator rpc ids operator env s ≡ (ok agg, s')
      → IsConsistent env.difficulty agg
  unfolding new_aggregator
  new_aggregator-IsConsistent env s s' agg h =
      let (pool, e, h1) = >>=-eq-done (from_outside (get_pool rpc ids operator)) _ s s' h in
      let (proof, e', h2) = >>=-eq-done (from_outside (get_proof rpc ids operator)) _ _ s' h1 in
      let (challenge, e2, h3) =
        >>=-eq-done (from_outside (fetch_challenge rpc ids operator env proof)) _ _ s' h2 in
      let (stake, e3, h4) =
        >>=-eq-done (fetch_stakers rpc ids operator operator.boost_accounts []) _ _ s' h3 in
      let now = as_u64 challenge.lash_hash_at in
      let at_start : Aggregator = record {
        challenge = challenge;
        contributions = put now [] [];
        total_score = 0;
        winner = none;
        num_members = pool.last_total_members;
        stake = stake;
      } in
      let same : agg ≡ at_start = ground (arith, h4) in
      rw same (record {
        current = [];
        current_at = ground (arith, get-put {V = MinerContributions} now now [] []);
        distinct = tt;
        capped = tt;
        scored = refl;
        best = refl;
      })

  module _ (env : Surroundings)
      (readable : (r : R) → (pool : Pool) × ((get_pool rpc ids operator r).0 ≡ ok pool)) where
    -- A step that does not pay keeps it whatever the reason is for which contributions are gone.
    Step-IsCurrent :
        (Gone : ℕ → Type 0) {s t : ServerState R} (step : Step rpc ids operator env s t)
        → ((k : ℕ) → Pays rpc ids operator env k step → Gone k)
        → IsCurrent Gone env s.aggregator
        → IsCurrent Gone env t.aggregator
    unfolding Pays
    Step-IsCurrent Gone (contributed checks payload s) why h =
        subst (IsCurrent Gone env)
          (sym (contribute-contributions rpc ids operator checks payload s).1) h
    Step-IsCurrent Gone (received c rest s e) why h =
        receive-IsCurrent rpc ids operator env Gone c (record s { contributions = rest }) h
    Step-IsCurrent Gone (submitted s) why h =
        submit_and_reset-IsCurrent rpc ids operator env Gone readable s h
    Step-IsCurrent Gone (posted formats token req s) why h =
        subst (IsCurrent Gone env) (sym (rewards_resource-aggregator formats token req s)) h
    Step-IsCurrent Gone (distributed write r rest s e) why h =
        subst (IsCurrent Gone env)
          (sym (distribute_next-cleaned write r (record s { rewards = rest })))
          (cleaned-IsCurrent Gone env s.aggregator r.last_hash_at _
            (λ done. why r.last_hash_at (refl, done)) h)
    Step-IsCurrent Gone (unstaked event s) why h =
        Restakes-IsCurrent Gone env (process_share_account_event event)
          (process_share_account_event-Restakes event) s h
    Step-IsCurrent Gone (told entry s) why h =
        Restakes-IsCurrent Gone env (introduce entry) (introduce-Restakes entry) s h
    Step-IsCurrent Gone (committed s) why h =
        Restakes-IsCurrent Gone env (commit_stake_and_count rpc ids operator)
          (commit_stake_and_count-Restakes rpc ids operator) s h
    Step-IsCurrent Gone (elsewhere members stakers outside s) why h = h

    -- Contributions are gone only where one of the steps paid for them.
    pub Steps-IsCurrent :
        {s t : ServerState R} (steps : Steps rpc ids operator env s t)
        → IsConsistent env.difficulty s.aggregator
        → IsCurrent (λ k. Paid rpc ids operator env k steps) env t.aggregator
    unfolding Paid
    Steps-IsCurrent (stays s) h = inr h
    Steps-IsCurrent (then_step steps last) h =
        let Before : ℕ → Type 0 = λ k. Paid rpc ids operator env k steps in
        let After : ℕ → Type 0 = λ k. Before k ⊎ Pays rpc ids operator env k last in
        Step-IsCurrent After last (λ k paid. inr paid)
          (map-IsCurrent Before After env _ (λ k p. inl p) (Steps-IsCurrent steps h))

    -- From the aggregator that the server starts with, and in whatever order the tasks take their
    -- steps and whatever fails in them, the aggregator's accumulators describe the contributions to
    -- the current challenge; or the aggregator has no entry for that challenge, and one of the steps
    -- distributed the reward of its hash with every batch written; if the pool's account can always
    -- be read.
    pub Steps-IsCurrent_served :
        (s s' : ServerState R) (agg : Aggregator) {t : ServerState R}
        → new_aggregator rpc ids operator env s ≡ (ok agg, s')
        → (steps : Steps rpc ids operator env (record s' { aggregator = agg }) t)
        → IsCurrent (λ k. Paid rpc ids operator env k steps) env t.aggregator
    Steps-IsCurrent_served s s' agg h steps =
        Steps-IsCurrent steps (new_aggregator-IsConsistent env s s' agg h)
