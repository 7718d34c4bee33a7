-- ===== src/Server/Attribution/History.antt =====
-- Any history of the pool keeps the marked records of the database (server/src/database.rs) true of the
-- chain (program/src).
use ore_pool.Prelude.{Bool-cases, arith, inl, inr, ◌==◌}
use ore_pool.Api.State.{Addresses, Pubkey}
use ore_pool.Program.Runtime.{Runtime, Chain}
use ore_pool.Program.Totals.{run_instruction-Shows}
use ore_pool.Server.Aggregator.{as_u64}
use ore_pool.Server.Database.{Members}
use ore_pool.Server.Attribution.Current.{read_member_All}
use ore_pool.Server.Attribution.Landing.{IsPlaced, attribute_elsewhere-Shows}
use ore_pool.Server.Attribution.Steps.{
  IsInStep, PoolStep, rewarded, attributed, settled, registered, ran, attributed_elsewhere,
  rewarded-IsInStep, registered-IsInStep, attributed-IsInStep, settled-IsInStep,
}

module _ {X : Type 0} (rt : Runtime X) (ids : Addresses) (operator : Pubkey) where
  -- A step keeps it.
  PoolStep-IsInStep :
      {c : Chain X} {rs : Members} {c' : Chain X} {rs' : Members}
      → IsInStep rt ids operator c rs
      → PoolStep rt ids operator c rs c' rs'
      → IsInStep rt ids operator c' rs'
  PoolStep-IsInStep h (rewarded {c} {rs} write agg authority r oc sc writes) =
      rewarded-IsInStep rt ids operator write writes c rs agg authority r oc sc h
  PoolStep-IsInStep h (attributed {c} {rs} fate tasks ends) =
      attributed-IsInStep rt ids operator fate c rs tasks ends h
  PoolStep-IsInStep h (settled {c} {rs} fate a r e) =
      settled-IsInStep rt ids operator fate c rs a r e h
  PoolStep-IsInStep h (registered {c} {rs} m approved at pool zero_yet e) =
      registered-IsInStep rt ids operator c rs m approved at pool zero_yet e h
  PoolStep-IsInStep h (ran {c} {c'} {rs} ix l d other e) = record {
    unique = h.unique;
    placed = h.placed;
    mirrored = λ a s read marked.
        run_instruction-Shows rt ids a (as_u64 s.total_balance) ix c l d other e
          (h.mirrored a s read marked);
  }
  PoolStep-IsInStep h (attributed_elsewhere {c} {c'} {rs} s p m d out e) = record {
    unique = h.unique;
    placed = h.placed;
    mirrored = λ a r read marked.
        let (_, _, within) = read_member_All (IsPlaced rt ids operator) rs a r h.placed read in
        attribute_elsewhere-Shows rt ids operator c s p m d a (as_u64 r.total_balance) e
          (elim (Bool-cases (a == m.key)) [
            | inl same ↦ absurd (ground (arith, same, out, within))
            | inr other ↦ other
          ])
          (h.mirrored a r read marked);
  }

  -- The steps of the pool, one after the other.
  pub data History (c₀ : Chain X) (rs₀ : Members) : Chain X → Members → Type 0 where
    start : History c₀ rs₀ c₀ rs₀
    next :
        {c c' : Chain X} {rs rs' : Members}
        → History c₀ rs₀ c rs
        → PoolStep rt ids operator c rs c' rs'
        → History c₀ rs₀ c' rs'

  -- After any number of these steps, in any order and each taken as a whole: rewards that are
  -- distributed, of which the database may refuse any batch; registrations of members whose
  -- accounts show no lifetime earnings; rounds of attributions, whose tasks end in any order and
  -- whose transactions may be dropped, fail, land unheard or be confirmed; updates of a balance
  -- whose transaction makes the member's own attribution, with the same four ends; instructions of
  -- the program other than attributions; and attributions, by anyone, of accounts of which the
  -- table has no row: a record that the database marks as synced is what the chain shows for its
  -- member, addresses stay unique and all rows of the operator's pool, with balances that their type
  -- holds, if this was so at the start, the database writes what it reports as written, and a
  -- transaction that lands does so within its round or update.
  pub History-IsInStep :
      {c : Chain X} {rs : Members} {c' : Chain X} {rs' : Members}
      → IsInStep rt ids operator c rs
      → History c rs c' rs'
      → IsInStep rt ids operator c' rs'
  History-IsInStep h start = h
  History-IsInStep h (next past step) = PoolStep-IsInStep (History-IsInStep h past) step
