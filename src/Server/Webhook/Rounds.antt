-- ===== src/Server/Webhook/Rounds.antt =====
-- server/src/webhook.rs: which requests reach the server's state, and the rewards they bring.
use ore_pool.Prelude.{
  ℕ, ◌+◌, ◌∷◌, ◌++◌, List, [], some, ok, err, true, false, ◌≡◌, refl, arith, length, length-append,
  get_elem?, inl, inr, Option-cases, Result-cases, ◌<◌,
}
use Prim.Native.String.{String}
use mathlib.Core.Path.{subst}
use mathlib.Core.List.{append_assoc}
use ore_pool.Prelude.Text.{
  equal_text_eq, is_digit, Text, chars, equal_text, decimal, parse_u64-trim_start_matches-decimal,
}
use ore_pool.Server.Rewards.{Rewards}
use ore_pool.Server.Error.{status_ok, Error, to_response, internal_server_error}
use ore_pool.Server.Webhook.Decode.{
  decode_share_account_event, decode_rewards_event, read_log_messages, decode_boost_reward, ok?,
  Formats, HttpRequest, Event, auth, decode_hash, decode_base_reward, decode_number,
  message_from_end,
}
use ore_pool.Prelude.Words.{u64_mod}
use ore_pool.Server.State.{ServerState}
use ore_pool.Server.Webhook.{
  share_account, rewards_resource, handle_share_account_event, handle_rewards_event,
}

-- A request whose authorization header is there, and reads as the token.
unfoldable pub IsAuthorised : Formats → Text → HttpRequest → Type 0
IsAuthorised formats token req =
    (header : List ℕ) × (req.authorization ≡ some header) × (formats.to_str header ≡ some token)

equal_text_self : (t : Text) → equal_text t t ≡ true
unfolding equal_text
equal_text_self [] = refl
equal_text_self (c ∷ t) = ground (arith, equal_text_self t)

get_elem?-append :
    (front : List Text) (m : Text) (tail : List Text)
    → get_elem? (front ++ m ∷ tail) (length front) ≡ some m
get_elem?-append [] m tail = refl
get_elem?-append (x ∷ front) m tail = get_elem?-append front m tail

message_at :
    (back : ℕ) (missing : String) (front : List Text) (m : Text) (tail : List Text)
    → back ≡ 1 + length tail
    → message_from_end back missing (front ++ m ∷ tail) ≡ ok m
unfolding message_from_end
message_at back missing front m tail e =
    ground (arith, e, length-append front (m ∷ tail), get_elem?-append front m tail)

number_at :
    (back : ℕ) (missing label : String) (c : ℕ) (p : Text) (front tail : List Text) (n : ℕ)
    → chars label ≡ c ∷ p
    → is_digit c ≡ false
    → n < u64_mod
    → back ≡ 1 + length tail
    → decode_number back missing label (front ++ (chars label ++ decimal n) ∷ tail) ≡ ok n
unfolding decode_number
number_at back missing label c p front tail n e h fits far =
    rw
      (
        message_at back missing front (chars label ++ decimal n) tail far,
        e,
        parse_u64-trim_start_matches-decimal c n p h fits,
      )
      refl

-- The messages of a mining transaction as the webhook expects them: the hash and the base reward,
-- each printed after its label, and six messages more.
unfoldable pub round_messages : (front tail : List Text) (last_hash_at base : ℕ) → List Text
round_messages front tail last_hash_at base =
    front
    ++ (chars "Program log: Hash: " ++ decimal last_hash_at)
      ∷ (chars "Program log: Base: " ++ decimal base)
      ∷ tail

decode_hash-round_messages :
    (front tail : List Text) (last_hash_at base : ℕ)
    → last_hash_at < u64_mod
    → length tail ≡ 6
    → decode_hash (round_messages front tail last_hash_at base) ≡ ok last_hash_at
unfolding decode_hash round_messages is_digit
decode_hash-round_messages front tail h b fits six =
    number_at 8 _ "Program log: Hash: " _ _ front
      ((chars "Program log: Base: " ++ decimal b) ∷ tail) h refl refl fits (omega arith)

decode_base_reward-round_messages :
    (front tail : List Text) (last_hash_at base : ℕ)
    → base < u64_mod
    → length tail ≡ 6
    → decode_base_reward (round_messages front tail last_hash_at base) ≡ ok base
unfolding decode_base_reward round_messages is_digit
decode_base_reward-round_messages front tail h b fits six =
    subst (λ log. decode_base_reward log ≡ ok b)
      (append_assoc front ((chars "Program log: Hash: " ++ decimal h) ∷ [])
        ((chars "Program log: Base: " ++ decimal b) ∷ tail))
      (number_at 7 _ "Program log: Base: " _ _
        (front ++ (chars "Program log: Hash: " ++ decimal h) ∷ []) tail b refl refl fits
        (omega arith))

module _ (formats : Formats) (token : Text) where
  auth-IsAuthorised :
      (req : HttpRequest) → auth formats token req ≡ ok tt → IsAuthorised formats token req
  unfolding auth IsAuthorised
  auth-IsAuthorised req h = elim (Option-cases req.authorization) [
    | inl e ↦ absurd (ground (arith, e, h))
    | inr (header, e) ↦ elim (Option-cases (formats.to_str header)) [
      | inl e' ↦ absurd (ground (arith, e, e', h))
      | inr (text, e') ↦ (header, e, ground (arith, e, e', h, equal_text_eq text token))
    ]
  ]

  auth_error :
      (req : HttpRequest) (x : Error)
      → auth formats token req ≡ err x
      → to_response x ≡ internal_server_error
  unfolding auth to_response
  auth_error req x h = elim (Option-cases req.authorization) [
    | inl e ↦ ground (arith, e, h)
    | inr (header, e) ↦ elim (Option-cases (formats.to_str header)) [
      | inl e' ↦ ground (arith, e, e', h)
      | inr (text, e') ↦ ground (arith, e, e', h)
    ]
  ]

  -- A request without an authorization header that reads as the webhook's token is answered with an
  -- internal server error by both resources, and changes nothing of the server's state.
  pub webhook_unauthorised :
      {R : Type 0} (req : HttpRequest) (s : ServerState R)
      → ¬ IsAuthorised formats token req
      → (share_account formats token req s ≡ (internal_server_error, s))
        × (rewards_resource formats token req s ≡ (internal_server_error, s))
  unfolding share_account rewards_resource handle_share_account_event handle_rewards_event
      decode_share_account_event decode_rewards_event read_log_messages
  webhook_unauthorised req s h = elim (Result-cases (auth formats token req)) [
    | inl (u, e) ↦ absurd (h (auth-IsAuthorised req e))
    | inr (x, e) ↦ (ground (arith, e, auth_error req x e), ground (arith, e, auth_error req x e))
  ]

  authorised : (req : HttpRequest) → IsAuthorised formats token req → auth formats token req ≡ ok tt
  unfolding auth IsAuthorised
  authorised req (header, e, e') = ground (arith, e, e', equal_text_self token)

  -- The rewards that an authorised request of a mining transaction brings.
  unfoldable pub rewards_of : (log : List Text) (last_hash_at base : ℕ) → Rewards
  rewards_of log last_hash_at base = record {
    base = base;
    boost_1 = ok? (decode_boost_reward formats log 9);
    boost_2 = ok? (decode_boost_reward formats log 10);
    boost_3 = ok? (decode_boost_reward formats log 11);
    last_hash_at = last_hash_at;
  }

  -- An authorised request whose first event has the log of a mining transaction, the hash and the
  -- base reward printed after their labels with six messages to follow, is answered with success, and
  -- exactly one entry with that hash and that base reward is sent to be distributed.
  pub rewards_resource-round_messages :
      {R : Type 0} (req : HttpRequest) (s : ServerState R) (event : Event) (events : List Event)
      (front tail : List Text) (last_hash_at base : ℕ)
      → IsAuthorised formats token req
      → formats.from_slice req.body ≡ some (event ∷ events)
      → event.log_messages ≡ round_messages front tail last_hash_at base
      → last_hash_at < u64_mod
      → base < u64_mod
      → length tail ≡ 6
      → rewards_resource formats token req s ≡ (
        status_ok,
        record s { rewards = s.rewards ++ rewards_of event.log_messages last_hash_at base ∷ [] },
      )
  unfolding rewards_resource handle_rewards_event decode_rewards_event read_log_messages rewards_of
  rewards_resource-round_messages req s event events front tail h b a e e' h_fits b_fits six =
      rw
        (
          authorised req a,
          e,
          e',
          decode_base_reward-round_messages front tail h b b_fits six,
          decode_hash-round_messages front tail h b h_fits six,
        )
        refl
