-- ===== src/Server/Webhook/Client.antt =====
-- server/src/webhook.rs: `Client::put`, which has the webhook watch every staker's share account.
use ore_pool.Prelude.{List, [], ◌∷◌, ◌++◌, none, some}
use ore_pool.Prelude.Store.{get, put}
use ore_pool.Api.State.{Addresses, Pubkey}
use ore_pool.Server.Error.{internal}
use ore_pool.Server.Io.{Io, ◌>>=◌, ◌>>◌, done, fail}
use ore_pool.Server.Rpc.{Rpc}
use ore_pool.Server.State.{ServerState, from_outside, look, change, set_aggregator, on_database}
use ore_pool.Server.Aggregator.{StakerBalances}
use ore_pool.Server.Database.Stakers.{write_webhook_staker}
use ore_pool.Server.Operator.{Operator, BoostAccount}
use ore_pool.Server.Operator.Reads.{get_stakers_db}

pub record ClientPutEntry : Type 0 where
  pub share : Pubkey
  pub authority : Pubkey
  pub mint : Pubkey

-- A new staker counts as zero until stake is committed.
abbrev pub introduced : Pubkey → StakerBalances → StakerBalances
introduced authority stakers = elim (get authority stakers) [
  | none ↦ put authority 0 stakers
  | some known ↦ stakers
]

module _ {R : Type 0} where
  -- The last part of `put`, on the aggregator.
  unfoldable pub introduce : ClientPutEntry → Io (ServerState R) (Unit {0})
  introduce entry = do
    agg ← look (λ s. s.aggregator)
    elim (get entry.mint agg.stake) [
      | none ↦ fail (internal "missing staker balances")
      | some stakers ↦
          set_aggregator
            (record agg { stake = put entry.mint (introduced entry.authority stakers) agg.stake })
    ]

-- `edit` sends the collection of addresses to the webhook's service, as Edit says.
module _ {R : Type 0} (rpc : Rpc R) (ids : Addresses) (operator : Operator)
    (edit : List Pubkey → Io R (Unit {0})) where
  unfoldable pub all_stakers : List BoostAccount → Io (ServerState R) (List Pubkey)
  all_stakers [] = done []
  all_stakers (ba ∷ bas) = do
    keys ← get_stakers_db rpc ids operator ba.mint
    others ← all_stakers bas
    done (keys ++ others)

  unfoldable pub put_entry : ClientPutEntry → Io (ServerState R) (Unit {0})
  put_entry entry = do
    db_stakers ← all_stakers operator.boost_accounts
    from_outside (edit db_stakers)
    on_database rpc
    change (λ s. record s { stakers = write_webhook_staker s.stakers entry.share })
    introduce entry
