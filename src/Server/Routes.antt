-- ===== src/Server/Routes.antt =====
-- server/src/main.rs, the `App` that it serves: which handler runs for which method and path.
pub mod Reading
pub mod Handlers
pub mod Queues
use ore_pool.Prelude.{
  ℕ, List, [], ◌∷◌, Option, none, some, Bool, true, false, ◌==◌, ◌||◌, if◌then◌else◌,
}
use ore_pool.Prelude.Text.{Text, chars, equal_text, strip_prefix}
use ore_pool.Api.State.{Addresses, Pubkey}
use ore_pool.Server.Error.{HttpStatus, status_ok}
use ore_pool.Server.Io.{Io}
use ore_pool.Server.Rpc.{Rpc}
use ore_pool.Server.State.{ServerState}
use ore_pool.Server.Operator.{Operator}
use ore_pool.Server.Database.{MemberRow}
use ore_pool.Server.Database.Stakers.{Staker}
use ore_pool.Server.Webhook.{share_account, rewards_resource}
use ore_pool.Server.Webhook.Decode.{Formats, HttpRequest}
use ore_pool.Server.Contributor.{
  RegisterPayload, RegisterStakerPayload, ContributePayload, UpdateBalancePayload, PoolAddress,
  MemberChallenge, BalanceUpdate, Checks, Answer, pool_address, challenge, member, contribute,
}
use ore_pool.Server.Contributor.Accounts.{register, register_staker, update_balance}

pub data Method : Type 0 where
  get post other : Method

pub data Body : Type 0 where
  nothing : Body
  ok_text : Body
  row : MemberRow → Body
  address : PoolAddress → Body
  staker : Staker → Body
  current : MemberChallenge → Body
  update : BalanceUpdate → Body

-- The framework answers by itself where no handler is found, or a payload cannot be read.
pub data Reply : Type 0 where
  by_framework : Reply
  dropped : Reply
  replied : HttpStatus → Body → Reply

-- The handlers, with what is read of the path.
pub data Route : Type 0 where
  member_route : Text → Route
  pool_address_route register_route register_staker_route contribute_route : Route
  challenge_route update_balance_route share_account_route rewards_route health_route : Route

-- The extractor `web::Json` of the payloads.
pub record Payloads : Type 0 where
  pub register_payload : List ℕ → Option RegisterPayload
  pub register_staker_payload : List ℕ → Option RegisterStakerPayload
  pub contribute_payload : List ℕ → Option ContributePayload
  pub update_balance_payload : List ℕ → Option UpdateBalancePayload

-- A pattern's segment is not empty and has no slash.
abbrev pub has_slash : Text → Bool
has_slash [] = false
has_slash (c ∷ s) = c == b'/' || has_slash s

abbrev pub segment : Text → Option Text
segment [] = none
segment (c ∷ s) = if has_slash (c ∷ s) then none else some (c ∷ s)

abbrev pub under : Method → Method → Route → Option Route
under get get route = some route
under post post route = some route
under _ _ route = none

-- `/member/{authority}`
abbrev pub member_path : Text → Option Text
member_path path = elim (strip_prefix (chars "/member/") path) [
  | none ↦ none
  | some rest ↦ segment rest
]

-- The resources, in their order.
unfoldable pub route_of : Method → Text → Option Route
route_of method path = elim (member_path path) [
  | some authority ↦ under method get (member_route authority)
  | none ↦
      if equal_text path (chars "/pool-address")
      then under method get pool_address_route
      else if equal_text path (chars "/register")
      then under method post register_route
      else if equal_text path (chars "/register-staker")
      then under method post register_staker_route
      else if equal_text path (chars "/contribute")
      then under method post contribute_route
      else if equal_text path (chars "/challenge")
      then under method get challenge_route
      else if equal_text path (chars "/update-balance")
      then under method post update_balance_route
      else if equal_text path (chars "/webhook/share-account")
      then under method post share_account_route
      else if equal_text path (chars "/webhook/rewards")
      then under method post rewards_route
      else if equal_text path (chars "/health")
      then under method get health_route
      else none
]

abbrev pub show : {A : Type 0} → (A → Body) → Answer A → Reply
show body (status, some value) = replied status (body value)
show body (status, none) = replied status nothing

abbrev pub show_outcome : {A : Type 0} → (A → Body) → Option (Answer A) → Reply
show_outcome body none = dropped
show_outcome body (some a) = show body a

-- A handler that needs a payload.
abbrev pub with_payload : {P S : Type 0} → Option P → (P → S → Reply × S) → S → Reply × S
with_payload none handle s = (by_framework, s)
with_payload (some p) handle s = handle p s

module _ {R : Type 0} (rpc : Rpc R) (ids : Addresses) (operator : Operator) (checks : Checks)
    (formats : Formats) (payloads : Payloads) (pubkey_from_str : Text → Option Pubkey)
    (helius_auth_token : Text) (edit : List Pubkey → Io R (Unit {0})) where
  unfoldable pub handle : Route → HttpRequest → ServerState R → Reply × ServerState R
  handle (member_route authority) req s =
      let (answered, s') = member rpc ids operator pubkey_from_str authority s in
      (show row answered, s')
  handle pool_address_route req s = (replied status_ok (address (pool_address ids operator)), s)
  handle register_route req s =
      with_payload (payloads.register_payload req.body)
        (λ p s₀. let (answered, s') = register rpc ids operator p s₀ in (show row answered, s')) s
  handle register_staker_route req s =
      with_payload (payloads.register_staker_payload req.body)
        (λ p s₀.
          let (answered, s') = register_staker rpc ids operator edit p s₀ in
          (show staker answered, s'))
        s
  handle contribute_route req s =
      with_payload (payloads.contribute_payload req.body)
        (λ p s₀.
          let (status, s') = contribute rpc ids operator checks p s₀ in
          (replied status nothing, s'))
        s
  handle challenge_route req s = (replied status_ok (current (challenge s)), s)
  handle update_balance_route req s =
      with_payload (payloads.update_balance_payload req.body)
        (λ p s₀.
          let (answered, s') = update_balance rpc ids operator p s₀ in
          (show_outcome update answered, s'))
        s
  handle share_account_route req s =
      let (status, s') = share_account formats helius_auth_token req s in
      (replied status nothing, s')
  handle rewards_route req s =
      let (status, s') = rewards_resource formats helius_auth_token req s in
      (replied status nothing, s')
  handle health_route req s = (replied status_ok ok_text, s)

  unfoldable pub serve : Method → Text → HttpRequest → ServerState R → Reply × ServerState R
  serve method path req s = elim (route_of method path) [
    | none ↦ (by_framework, s)
    | some route ↦ handle route req s
  ]
