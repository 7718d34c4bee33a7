-- ===== src/Server/Tasks.antt =====
-- server/src/main.rs: the tasks of the server and the steps that they take. A step is what a task
-- does while it holds the lock of the aggregator, or a statement on the tables; the steps of the
-- tasks come in any order.
pub mod Settings
pub mod Restaking
pub mod Invariant
use ore_pool.Prelude.{
  ℕ, ◌%◌, ◌^◌, List, [], ◌∷◌, Option, none, some, Result, ok, err, ok_or, ltb, if◌then◌else◌, ◌≡◌,
  ◌⊎◌,
}
use Prim.Native.String.{String}
use ore_pool.Prelude.Text.{Text, parse_u64}
use ore_pool.Api.State.{Addresses, Pubkey}
use ore_pool.Program.Stakes.{UnstakeEvent}
use ore_pool.Server.Error.{Error, std_parse_int}
use ore_pool.Server.Io.{Io, ◌>>=◌, ◌>>◌, done}
use ore_pool.Server.Rpc.{Rpc}
use ore_pool.Server.State.{ServerState, from_outside, look, set_aggregator}
use ore_pool.Server.Aggregator.{Aggregator, Contribution, Stakers}
use ore_pool.Server.Database.{Members}
use ore_pool.Server.Database.Stakers.{StakerRows}
use ore_pool.Server.Rewards.{Rewards, Distribution, distribute_rewards}
use ore_pool.Server.Operator.{Operator, Env, try_env_var}
use ore_pool.Server.Operator.Reads.{commit_stake, fetch_stakers}
use ore_pool.Server.Cycle.{Surroundings, receive, submit_and_reset}
use ore_pool.Server.Webhook.{process_share_account_event, rewards_resource}
use ore_pool.Server.Webhook.Decode.{Formats, HttpRequest}
use ore_pool.Server.Webhook.Client.{ClientPutEntry, introduce}
use ore_pool.Server.Contributor.{Checks, ContributePayload, contribute}

module _ {R : Type 0} (ids : Addresses) (operator : Operator) where
  -- One turn of the loop over rewards; `write` is the database's answer to a batch.
  unfoldable pub distribute_next :
      (write : Members → Distribution → Result Error Members)
      → Rewards
      → ServerState R
      → ServerState R
  distribute_next write rewards s =
      let (r, agg, members) =
        distribute_rewards ids write s.aggregator s.members operator.keypair rewards
          operator.operator_commission operator.staker_commission in
      record s { aggregator = agg; members = members }

module _ {R : Type 0} (rpc : Rpc R) (ids : Addresses) (operator : Operator) where
  -- One turn of the loop that commits stake; the balances are those of the chain after it.
  unfoldable pub commit_stake_and_count : Io (ServerState R) (Unit {0})
  commit_stake_and_count = do
    from_outside (commit_stake rpc ids operator)
    stake ← fetch_stakers rpc ids operator operator.boost_accounts []
    agg ← look (λ s. s.aggregator)
    set_aggregator (record agg { stake = stake })

  module _ (env : Surroundings) where
    pub data Step : ServerState R → ServerState R → Type 0 where
      contributed :
          (checks : Checks) (payload : ContributePayload) (s : ServerState R)
          → Step s (contribute rpc ids operator checks payload s).1
      received :
          (c : Contribution) (rest : List Contribution) (s : ServerState R)
          → s.contributions ≡ c ∷ rest
          → Step s (receive rpc ids operator env c (record s { contributions = rest })).1
      submitted : (s : ServerState R) → Step s (submit_and_reset rpc ids operator env s).1
      posted :
          (formats : Formats) (token : Text) (req : HttpRequest) (s : ServerState R)
          → Step s (rewards_resource formats token req s).1
      distributed :
          (write : Members → Distribution → Result Error Members) (r : Rewards)
          (rest : List Rewards) (s : ServerState R)
          → s.rewards ≡ r ∷ rest
          → Step s (distribute_next ids operator write r (record s { rewards = rest }))
      unstaked :
          (event : UnstakeEvent) (s : ServerState R)
          → Step s (process_share_account_event event s).1
      told : (entry : ClientPutEntry) (s : ServerState R) → Step s (introduce entry s).1
      committed : (s : ServerState R) → Step s (commit_stake_and_count s).1
      -- another statement on the tables, or a change outside
      elsewhere :
          (members : Members) (stakers : StakerRows) (outside : R) (s : ServerState R)
          → Step s (record s { members = members; stakers = stakers; outside = outside })

    pub data Steps : ServerState R → ServerState R → Type 0 where
      stays : (s : ServerState R) → Steps s s
      then_step : {s t u : ServerState R} → Steps s t → Step t u → Steps s u

    -- The step distributes the reward of this hash, and all of it is written.
    unfoldable pub Pays : ℕ → {s t : ServerState R} → Step s t → Type 0
    Pays key (distributed write r rest s e) =
        (r.last_hash_at ≡ key)
        × ((distribute_rewards ids write s.aggregator s.members operator.keypair r
              operator.operator_commission operator.staker_commission).0
            ≡ ok tt)
    Pays key (contributed checks payload s) = ⊥
    Pays key (received c rest s e) = ⊥
    Pays key (submitted s) = ⊥
    Pays key (posted formats token req s) = ⊥
    Pays key (unstaked event s) = ⊥
    Pays key (told entry s) = ⊥
    Pays key (committed s) = ⊥
    Pays key (elsewhere members stakers outside s) = ⊥

    -- One of the steps does.
    unfoldable pub Paid : ℕ → {s t : ServerState R} → Steps s t → Type 0
    Paid key (stays s) = ⊥
    Paid key (then_step steps last) = Paid key steps ⊎ Pays key last
