-- ===== src/Server/Webhook.antt =====
-- server/src/webhook.rs: what a webhook posts, and the client that tells it which accounts to watch.
-- A text is the list of its characters' numbers.
pub mod Decode
pub mod Client
pub mod Edit
pub mod Rounds
pub mod Worth
use ore_pool.Prelude.{
  ℕ, ◌+◌, List, [], ◌∷◌, ◌++◌, Option, none, some, Result, ok, err, Bool, true, false, ltb,
  if◌then◌else◌,
}
use ore_pool.Prelude.Store.{get, put}
use ore_pool.Prelude.Text.{Text}
use ore_pool.Api.State.{Pubkey}
use ore_pool.Program.Stakes.{UnstakeEvent}
use ore_pool.Server.Error.{Error, internal, HttpStatus, status_ok, to_response}
use ore_pool.Server.Io.{Io, ◌>>=◌, ◌>>◌, done, fail, lift}
use ore_pool.Server.State.{ServerState, look, change, set_aggregator}
use ore_pool.Server.Aggregator.{Aggregator, StakerBalances}
use ore_pool.Server.Rewards.{Rewards}
use ore_pool.Server.Webhook.Decode.{
  Formats, HttpRequest, decode_share_account_event, decode_rewards_event,
}

-- A balance is lowered to what the event says, and never raised.
abbrev pub lowered : Pubkey → ℕ → StakerBalances → StakerBalances
lowered authority balance stakers = elim (get authority stakers) [
  | none ↦ stakers
  | some known ↦ if ltb balance known then put authority balance stakers else stakers
]

-- The answers of the two resources.
abbrev pub respond : Result Error (Unit {0}) → HttpStatus
respond (ok x) = status_ok
respond (err e) = to_response e

module _ {R : Type 0} where
  unfoldable pub process_share_account_event : UnstakeEvent → Io (ServerState R) (Unit {0})
  process_share_account_event event = do
    agg ← look (λ s. s.aggregator)
    elim (get event.mint agg.stake) [
      | none ↦ fail (internal "missing staker balances")
      | some stakers ↦ set_aggregator (record agg {
        stake = put event.mint (lowered event.authority event.balance stakers) agg.stake;
      })
    ]

module _ {R : Type 0} (formats : Formats) (helius_auth_token : Text) where
  unfoldable pub handle_share_account_event : HttpRequest → Io (ServerState R) (Unit {0})
  handle_share_account_event req = do
    event ← lift (decode_share_account_event formats helius_auth_token req)
    process_share_account_event event

  -- The receiver of the channel runs as long as the server; a sender waits for room.
  unfoldable pub handle_rewards_event : HttpRequest → Io (ServerState R) (Unit {0})
  handle_rewards_event req = do
    rewards ← lift (decode_rewards_event formats helius_auth_token req)
    change (λ s. record s { rewards = s.rewards ++ rewards ∷ [] })

  unfoldable pub share_account : HttpRequest → ServerState R → HttpStatus × ServerState R
  share_account req s =
      let handled = handle_share_account_event req s in (respond handled.0, handled.1)

  unfoldable pub rewards_resource : HttpRequest → ServerState R → HttpStatus × ServerState R
  rewards_resource req s =
      let handled = handle_rewards_event req s in (respond handled.0, handled.1)
