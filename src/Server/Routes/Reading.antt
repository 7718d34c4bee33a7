-- ===== src/Server/Routes/Reading.antt =====
-- server/src/main.rs: what the requests of the served routes can change.
use ore_pool.Prelude.{◌≡◌, List, Option, some, Option-cases, Result-cases, inl, inr, arith}
use ore_pool.Prelude.Text.{Text}
use ore_pool.Api.State.{Addresses, Pubkey}
use ore_pool.Server.Io.{Io}
use ore_pool.Server.Rpc.{Rpc}
use ore_pool.Server.State.{ServerState}
use ore_pool.Server.Operator.{Operator}
use ore_pool.Server.Operator.Reads.{get_member_db}
use ore_pool.Server.Webhook.Decode.{Formats, HttpRequest}
use ore_pool.Server.Contributor.{Checks, member}
use ore_pool.Server.Routes.{Method, get, other, Route, Payloads, route_of, handle, serve}

-- The same but for what lies outside.
abbrev pub Unchanged : {R : Type 0} → ServerState R → ServerState R → Type 0
Unchanged s s' =
    (s'.aggregator ≡ s.aggregator)
    × (s'.members ≡ s.members)
    × (s'.stakers ≡ s.stakers)
    × (s'.contributions ≡ s.contributions)
    × (s'.rewards ≡ s.rewards)

-- The routes that are asked with GET.
data IsReading : Route → Type 0 where
  of_member : (authority : Text) → IsReading (Route.member_route authority)
  of_pool : IsReading Route.pool_address_route
  of_challenge : IsReading Route.challenge_route
  of_health : IsReading Route.health_route

route_of-IsReading :
    (path : Text) (route : Route) → route_of get path ≡ some route → IsReading route
unfolding route_of
route_of-IsReading path (Route.member_route a) h = of_member a
route_of-IsReading path Route.pool_address_route h = of_pool
route_of-IsReading path Route.challenge_route h = of_challenge
route_of-IsReading path Route.health_route h = of_health
route_of-IsReading path Route.register_route h = absurd (ground (arith, h))
route_of-IsReading path _ h = absurd (ground (arith, h))

module _ {R : Type 0} (rpc : Rpc R) (ids : Addresses) (operator : Operator) (checks : Checks)
    (formats : Formats) (payloads : Payloads) (pubkey_from_str : Text → Option Pubkey)
    (token : Text) (edit : List Pubkey → Io R (Unit {0})) where
  abbrev served : Method → Text → HttpRequest → ServerState R → ServerState R
  served method path req s =
      (serve rpc ids operator checks formats payloads pubkey_from_str token edit method path req
        s).1

  get_member_db-Unchanged :
      (authority : Pubkey) (s : ServerState R)
      → Unchanged s (get_member_db rpc ids operator authority s).1
  unfolding get_member_db
  get_member_db-Unchanged authority s = elim (Result-cases (rpc.connect s.outside).0) [
    | inr (x, e) ↦ ground (arith, e)
    | inl (u, e) ↦ elim (Result-cases (rpc.run_statement (rpc.connect s.outside).1).0) [
      | inr (x, e') ↦ ground (arith, e, e')
      | inl (v, e') ↦ ground (arith, e, e')
    ]
  ]

  handle-Unchanged :
      (route : Route) (req : HttpRequest) (s : ServerState R)
      → IsReading route
      → Unchanged s
          (handle rpc ids operator checks formats payloads pubkey_from_str token edit route req s).1
  unfolding handle member
  handle-Unchanged _ req s (of_member path) = elim (Option-cases (pubkey_from_str path)) [
    | inl e ↦ ground (arith, e)
    | inr (authority, e) ↦ ground (arith, e, get_member_db-Unchanged authority s)
  ]
  handle-Unchanged _ req s of_pool = ground arith
  handle-Unchanged _ req s of_challenge = ground arith
  handle-Unchanged _ req s of_health = ground arith

  -- A request with GET, whatever its path, or with a method that is neither GET nor POST, leaves the
  -- aggregator, the tables and the channels as they are.
  pub serve-Unchanged :
      (path : Text) (req : HttpRequest) (s : ServerState R)
      → Unchanged s (served get path req s) × Unchanged s (served other path req s)
  unfolding serve route_of
  serve-Unchanged path req s = (
    elim (Option-cases (route_of get path)) [
      | inl e ↦ ground (arith, e)
      | inr (route, e) ↦
          ground (arith, e, handle-Unchanged route req s (route_of-IsReading path route e))
    ],
    ground arith,
  )
