-- ===== src/Server/Tests/Serving.antt =====
-- server/src/main.rs: a request for each of the two channels, and one that only reads.
use ore_pool.Prelude.{◌≡◌, refl, ok, [], none, some, true, ◌⊎◌}
use ore_pool.Prelude.Text.{chars, equal_text, strip_prefix}
use ore_pool.Api.Sample.{ids}
use ore_pool.Server.Routes.{get, post, other, Payloads, Route, route_of, serve}
use ore_pool.Server.Routes.Reading.{Unchanged, serve-Unchanged}
use ore_pool.Server.Routes.Queues.{serve_queues}
use ore_pool.Server.Webhook.Decode.{HttpRequest}
use ore_pool.Server.Tests.Node.{node}
use ore_pool.Server.Tests.Posting.{formats, token}
use ore_pool.Server.Tests.Requests.{cashier, checks, mined, asked, served}

abbrev payloads : Payloads
payloads = record {
  register_payload = λ body. some (record { authority = 5 });
  register_staker_payload = λ body. none;
  contribute_payload = λ body. some mined;
  update_balance_payload = λ body. some asked;
}

abbrev request : HttpRequest
request = record { authorization = none; body = [] }

routes :
    (route_of get (chars "/member/abc") ≡ some (Route.member_route (chars "abc")))
    × (route_of get (chars "/member/a/b") ≡ none)
    × (route_of post (chars "/challenge") ≡ none)
    × (route_of post (chars "/webhook/rewards") ≡ some Route.rewards_route)
unfolding route_of strip_prefix equal_text
routes = (refl, refl, refl, refl)

serve-Unchanged_example :
    Unchanged served
      (serve
        (node true)
        ids
        cashier
        checks
        formats
        payloads
        (λ text. some 5)
        token
        (λ keys r. (ok tt, r))
        get
        (chars "/member/5")
        request
        served).1
    × Unchanged served
        (serve
          (node true)
          ids
          cashier
          checks
          formats
          payloads
          (λ text. some 5)
          token
          (λ keys r. (ok tt, r))
          other
          (chars "/member/5")
          request
          served).1
serve-Unchanged_example =
    serve-Unchanged (node true) ids cashier checks formats payloads (λ text. some 5) token
      (λ keys r. (ok tt, r)) (chars "/member/5") request served

serve_queues_example :
    let after =
      (serve
        (node true)
        ids
        cashier
        checks
        formats
        payloads
        (λ text. some 5)
        token
        (λ keys r. (ok tt, r))
        post
        (chars "/contribute")
        request
        served).1 in
    ((after.contributions ≡ served.contributions)
      ⊎ ((post ≡ post) × (equal_text (chars "/contribute") (chars "/contribute") ≡ true)))
    × ((after.rewards ≡ served.rewards)
        ⊎ ((post ≡ post) × (equal_text (chars "/contribute") (chars "/webhook/rewards") ≡ true)))
serve_queues_example =
    serve_queues (node true) ids cashier checks formats payloads (λ text. some 5) token
      (λ keys r. (ok tt, r)) post (chars "/contribute") request served
