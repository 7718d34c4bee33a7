-- ===== src/Server/State.antt =====
-- What the tasks of the server share (server/src/main.rs): the aggregator behind its lock, the
-- tables, the two channels, and all that lies outside.
use ore_pool.Prelude.{List, ok}
use ore_pool.Server.Io.{Io, ◌>>◌}
use ore_pool.Server.Rpc.{Rpc}
use ore_pool.Server.Aggregator.{Aggregator, Contribution}
use ore_pool.Server.Rewards.{Rewards}
use ore_pool.Server.Database.{Members}
use ore_pool.Server.Database.Stakers.{StakerRows}

pub record ServerState (R : Type 0) : Type 0 where
  pub aggregator : Aggregator
  pub members : Members
  pub stakers : StakerRows
  -- contributions and rewards that were sent and not yet received, the oldest first
  pub contributions : List Contribution
  pub rewards : List Rewards
  pub outside : R

module _ {R : Type 0} where
  abbrev pub from_outside : {A : Type 0} → Io R A → Io (ServerState R) A
  from_outside io s = ((io s.outside).0, record s { outside = (io s.outside).1 })

  abbrev pub look : {A : Type 0} → (ServerState R → A) → Io (ServerState R) A
  look f s = (ok (f s), s)

  abbrev pub change : (ServerState R → ServerState R) → Io (ServerState R) (Unit {0})
  change f s = (ok tt, f s)

  abbrev pub set_aggregator : Aggregator → Io (ServerState R) (Unit {0})
  set_aggregator agg = change (λ s. record s { aggregator = agg })

-- A connection is taken and a statement runs, before its effect on a table is seen.
abbrev pub on_database : {R : Type 0} → Rpc R → Io (ServerState R) (Unit {0})
on_database rpc = from_outside rpc.connect >> from_outside rpc.run_statement
