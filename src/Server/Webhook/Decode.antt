-- ===== src/Server/Webhook/Decode.antt =====
-- server/src/webhook.rs: the authorisation of a request, and the events in its body.
use ore_pool.Prelude.{
  ℕ, List, [], ◌∷◌, Option, none, some, Result, ok, err, ◌>>=◌, ◌>>◌, guard, ok_or, length,
  get_elem?,
}
use Prim.Native.String.{String}
use ore_pool.Prelude.Text.{Text, chars, equal_text, trim_start_matches, parse_u64}
use ore_pool.Prelude.Words.{checked_sub}
use ore_pool.Program.Stakes.{UnstakeEvent}
use ore_pool.Server.Error.{
  Error, internal, http_header, serde_json, share_account_received, base64_decode, std_parse_int,
}
use ore_pool.Server.Rewards.{Rewards, BoostEvent}

-- The header and the body of a request.
pub record HttpRequest : Type 0 where
  pub authorization : Option (List ℕ)
  pub body : List ℕ

-- `Event`, of which only the log messages are read
pub record Event : Type 0 where
  pub log_messages : List Text

-- What other crates read: a header's text, the JSON of a body, base64, and the bytes of the events.
pub record Formats : Type 0 where
  pub to_str : List ℕ → Option Text
  pub from_slice : List ℕ → Option (List Event)
  pub base64 : Text → Option (List ℕ)
  pub unstake_event_from_bytes : List ℕ → Option UnstakeEvent
  pub boost_event_from_bytes : List ℕ → Option BoostEvent
  pub boost_event_error : String

abbrev pub first : List Event → Option Event
first [] = none
first (e ∷ es) = some e

-- The message so many places before the end.
unfoldable pub message_from_end : (back : ℕ) (missing : String) → List Text → Result Error Text
message_from_end back missing log_messages = do
  index ←
      ok_or (checked_sub (length log_messages) back)
        (internal "invalid webhook event message index")
  ok_or (get_elem? log_messages index) (internal missing)

-- A number after a label
unfoldable pub decode_number : (back : ℕ) (missing label : String) → List Text → Result Error ℕ
decode_number back missing label log_messages = do
  message ← message_from_end back missing log_messages
  ok_or (parse_u64 (trim_start_matches (chars label) message)) std_parse_int

unfoldable pub decode_base_reward : List Text → Result Error ℕ
decode_base_reward log_messages =
    decode_number 7 "missing webhook base reward" "Program log: Base: " log_messages

unfoldable pub decode_hash : List Text → Result Error ℕ
decode_hash log_messages = decode_number 8 "missing webhook hash" "Program log: Hash: " log_messages

abbrev pub ok? : {A : Type 0} → Result Error A → Option A
ok? (ok a) = some a
ok? (err e) = none

module _ (formats : Formats) where
  unfoldable pub decode_boost_reward : List Text → (index : ℕ) → Result Error BoostEvent
  decode_boost_reward log_messages index = do
    message ← message_from_end index "missing webhook boost reward" log_messages
    data_bytes ←
        ok_or (formats.base64 (trim_start_matches (chars "Program data: ") message)) base64_decode
    ok_or (formats.boost_event_from_bytes data_bytes) (internal formats.boost_event_error)

  module _ (helius_auth_token : Text) where
    unfoldable pub auth : HttpRequest → Result Error (Unit {0})
    auth req = do
      header ← ok_or req.authorization (internal "missing auth header in webhook event")
      text ← ok_or (formats.to_str header) http_header
      guard (equal_text text helius_auth_token) (internal "invalid auth header in webhook event")

    -- The log messages of the first event of an authorised request.
    unfoldable pub read_log_messages : HttpRequest → Result Error (List Text)
    read_log_messages req = do
      auth req
      events ← ok_or (formats.from_slice req.body) serde_json
      event ← ok_or (first events) (internal "empty webhook event")
      ok event.log_messages

    unfoldable pub decode_share_account_event : HttpRequest → Result Error UnstakeEvent
    decode_share_account_event req = do
      log_messages ← read_log_messages req
      message ← message_from_end 3 "missing webhook event message" log_messages
      data_bytes ←
          ok_or (formats.base64 (trim_start_matches (chars "Program data: ") message))
            share_account_received
      ok_or (formats.unstake_event_from_bytes data_bytes) share_account_received

    unfoldable pub decode_rewards_event : HttpRequest → Result Error Rewards
    decode_rewards_event req = do
      log_messages ← read_log_messages req
      base_reward ← decode_base_reward log_messages
      last_hash_at ← decode_hash log_messages
      ok (record {
        base = base_reward;
        boost_1 = ok? (decode_boost_reward log_messages 9);
        boost_2 = ok? (decode_boost_reward log_messages 10);
        boost_3 = ok? (decode_boost_reward log_messages 11);
        last_hash_at = last_hash_at;
      })
