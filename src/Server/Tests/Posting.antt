-- ===== src/Server/Tests/Posting.antt =====
-- server/src/webhook.rs: what a webhook posts about a mining transaction and about a share account.
use ore_pool.Prelude.{
  ℕ, ◌++◌, ◌≡◌, refl, [], ◌∷◌, List, Option, some, none, ◌==◌, ◌&&◌, if◌then◌else◌, replicate,
  arith,
}
use ore_pool.Prelude.Text.{Text, chars}
use ore_pool.Program.Stakes.{UnstakeEvent}
use ore_pool.Server.Error.{status_ok, internal_server_error}
use ore_pool.Server.State.{ServerState}
use ore_pool.Server.Webhook.{process_share_account_event, share_account, rewards_resource}
use ore_pool.Server.Webhook.Decode.{Formats, HttpRequest, Event}
use ore_pool.Server.Webhook.Rounds.{
  IsAuthorised, round_messages, rewards_of, webhook_unauthorised, rewards_resource-round_messages,
}
use ore_pool.Server.Webhook.Worth.{worth, at_most, process_share_account_event-worth}
use ore_pool.Server.Tests.Node.{serving}

abbrev pub token : Text
token = chars "secret"

abbrev six : List Text
six = replicate 6 []

abbrev mined : Event
mined = record { log_messages = round_messages [] six 20 500 }

abbrev pub formats : Formats
formats = record {
  to_str = λ header. some header;
  from_slice = λ body. some (mined ∷ []);
  base64 = λ text. none;
  unstake_event_from_bytes = λ bytes. none;
  boost_event_from_bytes = λ bytes. none;
  boost_event_error = "";
}

abbrev posted : Option (List ℕ) → HttpRequest
posted header = record { authorization = header; body = [] }

no_header : ¬ IsAuthorised formats token (posted none)
unfolding IsAuthorised
no_header (header, e, e') = ground (arith, e)

webhook_unauthorised_example :
    (share_account formats token (posted none) (serving []) ≡ (internal_server_error, serving []))
    × (rewards_resource formats token (posted none) (serving [])
        ≡ (internal_server_error, serving []))
webhook_unauthorised_example =
    webhook_unauthorised formats token (posted none) (serving []) no_header

with_header : IsAuthorised formats token (posted (some token))
unfolding IsAuthorised
with_header = (token, refl, refl)

rewards_resource-round_messages_example :
    rewards_resource formats token (posted (some token)) (serving []) ≡ (
      status_ok,
      record (serving []) {
        rewards = [] ++ rewards_of formats token mined.log_messages 20 500 ∷ [];
      },
    )
rewards_resource-round_messages_example =
    rewards_resource-round_messages formats token (posted (some token)) (serving []) mined [] [] six
      20 500 with_header refl refl (omega arith) (omega arith) refl

-- One staker of one mint.
abbrev staked : ServerState ℕ
staked =
    let s = serving [] in
    record s { aggregator = record s.aggregator { stake = (3, (5, 40) ∷ []) ∷ [] } }

abbrev unstaked : UnstakeEvent
unstaked = record { authority = 5; share = 6; mint = 3; balance = 25 }

process_share_account_event-worth_example :
    worth (process_share_account_event unstaked staked).1.aggregator.stake 3 5 ≡ (
      if 3 == 3 && 5 == 5
      then at_most 25 (worth staked.aggregator.stake 3 5)
      else worth staked.aggregator.stake 3 5)
process_share_account_event-worth_example = process_share_account_event-worth unstaked staked 3 5
