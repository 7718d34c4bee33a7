-- ===== src/Server/Routes/Queues.antt =====
-- server/src/main.rs: which of the served routes put anything into the channels of the tasks.
use ore_pool.Prelude.{◌≡◌, refl, List, Option, none, some, Option-cases, inl, inr, arith, ◌⊎◌, true}
use ore_pool.Prelude.Text.{Text, chars, equal_text}
use ore_pool.Api.State.{Addresses, Pubkey}
use ore_pool.Server.Io.{Io}
use ore_pool.Server.Rpc.{Rpc}
use ore_pool.Server.State.{ServerState}
use ore_pool.Server.Operator.{Operator}
use ore_pool.Server.Webhook.Decode.{Formats, HttpRequest}
use ore_pool.Server.Contributor.{Checks}
use ore_pool.Server.Routes.{
  Method, get, post, other, Route, Reply, with_payload, Payloads, route_of, handle, serve,
}
use ore_pool.Server.Routes.Handlers.{
  SameQueues, register-SameQueues, update_balance-SameQueues, member-SameQueues,
  register_staker-SameQueues, contribute-rewards, share_account-SameQueues,
  rewards_resource-contributions,
}

route_of-contribute :
    (method : Method) (path : Text)
    → route_of method path ≡ some Route.contribute_route
    → (method ≡ post) × (equal_text path (chars "/contribute") ≡ true)
unfolding route_of
route_of-contribute get path h = absurd (ground (arith, h))
route_of-contribute post path h = (refl, ground (arith, h))
route_of-contribute other path h = absurd (ground (arith, h))

route_of-rewards :
    (method : Method) (path : Text)
    → route_of method path ≡ some Route.rewards_route
    → (method ≡ post) × (equal_text path (chars "/webhook/rewards") ≡ true)
unfolding route_of
route_of-rewards get path h = absurd (ground (arith, h))
route_of-rewards post path h = (refl, ground (arith, h))
route_of-rewards other path h = absurd (ground (arith, h))

module _ {R : Type 0} (rpc : Rpc R) (ids : Addresses) (operator : Operator) (checks : Checks)
    (formats : Formats) (payloads : Payloads) (pubkey_from_str : Text → Option Pubkey)
    (token : Text) (edit : List Pubkey → Io R (Unit {0})) where
  abbrev handled : Route → HttpRequest → ServerState R → ServerState R
  handled route req s =
      (handle rpc ids operator checks formats payloads pubkey_from_str token edit route req s).1

  with_payload-SameQueues :
      {P : Type 0} (read : Option P) (serve_payload : P → ServerState R → Reply × ServerState R)
      (s : ServerState R)
      → ((p : P) → SameQueues s (serve_payload p s).1)
      → SameQueues s (with_payload read serve_payload s).1
  with_payload-SameQueues none serve_payload s h = (refl, refl)
  with_payload-SameQueues (some p) serve_payload s h = h p

  handle-contributions :
      (route : Route) (req : HttpRequest) (s : ServerState R)
      → ((handled route req s).contributions ≡ s.contributions) ⊎ (route ≡ Route.contribute_route)
  unfolding handle
  handle-contributions Route.contribute_route req s = inr refl
  handle-contributions Route.rewards_route req s =
      inl (rewards_resource-contributions formats token req s)
  handle-contributions (Route.member_route a) req s =
      inl (member-SameQueues rpc ids operator pubkey_from_str a s).0
  handle-contributions Route.register_route req s =
      inl
        (with_payload-SameQueues (payloads.register_payload req.body) _ s
          (λ p. register-SameQueues rpc ids operator p s)).0
  handle-contributions Route.register_staker_route req s =
      inl
        (with_payload-SameQueues (payloads.register_staker_payload req.body) _ s
          (λ p. register_staker-SameQueues rpc ids operator edit p s)).0
  handle-contributions Route.update_balance_route req s =
      inl
        (with_payload-SameQueues (payloads.update_balance_payload req.body) _ s
          (λ p. update_balance-SameQueues rpc ids operator p s)).0
  handle-contributions Route.share_account_route req s =
      inl (share_account-SameQueues formats token req s).0
  handle-contributions _ req s = inl refl

  handle-rewards :
      (route : Route) (req : HttpRequest) (s : ServerState R)
      → ((handled route req s).rewards ≡ s.rewards) ⊎ (route ≡ Route.rewards_route)
  unfolding handle
  handle-rewards Route.rewards_route req s = inr refl
  handle-rewards Route.contribute_route req s =
      elim (Option-cases (payloads.contribute_payload req.body)) [
        | inl e ↦ inl (ground (arith, e))
        | inr (p, e) ↦ inl (ground (arith, e, contribute-rewards rpc ids operator checks p s))
      ]
  handle-rewards (Route.member_route a) req s =
      inl (member-SameQueues rpc ids operator pubkey_from_str a s).1
  handle-rewards Route.register_route req s =
      inl
        (with_payload-SameQueues (payloads.register_payload req.body) _ s
          (λ p. register-SameQueues rpc ids operator p s)).1
  handle-rewards Route.register_staker_route req s =
      inl
        (with_payload-SameQueues (payloads.register_staker_payload req.body) _ s
          (λ p. register_staker-SameQueues rpc ids operator edit p s)).1
  handle-rewards Route.update_balance_route req s =
      inl
        (with_payload-SameQueues (payloads.update_balance_payload req.body) _ s
          (λ p. update_balance-SameQueues rpc ids operator p s)).1
  handle-rewards Route.share_account_route req s =
      inl (share_account-SameQueues formats token req s).1
  handle-rewards _ req s = inl refl

  -- A request puts a contribution into its channel only with POST on "/contribute", and a reward only
  -- with POST on "/webhook/rewards".
  pub serve_queues :
      (method : Method) (path : Text) (req : HttpRequest) (s : ServerState R)
      → (((serve rpc ids operator checks formats payloads pubkey_from_str token edit method path req
              s).1.contributions
            ≡ s.contributions)
          ⊎ ((method ≡ post) × (equal_text path (chars "/contribute") ≡ true)))
        × (((serve rpc ids operator checks formats payloads pubkey_from_str token edit method path
                req s).1.rewards
              ≡ s.rewards)
            ⊎ ((method ≡ post) × (equal_text path (chars "/webhook/rewards") ≡ true)))
  unfolding serve
  serve_queues method path req s = elim (Option-cases (route_of method path)) [
    | inl e ↦ (inl (ground (arith, e)), inl (ground (arith, e)))
    | inr (route, e) ↦ (
      elim (handle-contributions route req s) [
        | inl same ↦ inl (ground (arith, e, same))
        | inr is ↦ inr (route_of-contribute method path (ground (arith, e, is)))
      ],
      elim (handle-rewards route req s) [
        | inl same ↦ inl (ground (arith, e, same))
        | inr is ↦ inr (route_of-rewards method path (ground (arith, e, is)))
      ],
    )
  ]
