-- ===== src/Server/Routes/Handlers.antt =====
-- The handlers of the routes, and the channels of the tasks: who puts anything into them.
use ore_pool.Prelude.{◌≡◌, refl, List, [], ◌∷◌, Option, Result-cases, inl, inr, arith}
use ore_pool.Prelude.Text.{Text}
use ore_pool.Api.State.{Addresses, Pubkey}
use ore_pool.Server.Io.{Io}
use ore_pool.Server.Rpc.{Rpc}
use ore_pool.Server.State.{ServerState, from_outside}
use ore_pool.Server.Operator.{Operator, BoostAccount}
use ore_pool.Server.Operator.Reads.{
  get_member_db, get_staker_db, get_stakers_db, get_staker_onchain,
}
use ore_pool.Server.Webhook.{
  share_account, rewards_resource, handle_share_account_event, handle_rewards_event,
  process_share_account_event,
}
use ore_pool.Server.Webhook.Client.{ClientPutEntry, all_stakers, put_entry, introduce}
use ore_pool.Server.Webhook.Decode.{Formats, HttpRequest}
use ore_pool.Server.Contributor.{
  check_nonce, ContributePayload, RegisterPayload, RegisterStakerPayload, UpdateBalancePayload,
  Checks, member, contribute,
}
use ore_pool.Server.Contributor.Accounts.{
  register, register_staker, update_balance, register_new_member, query_member, insert_member,
  insert_staker, register_new_staker, watch, land_balance, update_balance_onchain,
}

-- The channels as they were.
abbrev pub SameQueues : {R : Type 0} → ServerState R → ServerState R → Type 0
SameQueues s s' = (s'.contributions ≡ s.contributions) × (s'.rewards ≡ s.rewards)

module _ {R : Type 0} (rpc : Rpc R) (ids : Addresses) (operator : Operator) where
  pub register-SameQueues :
      (p : RegisterPayload) (s : ServerState R) → SameQueues s (register rpc ids operator p s).1
  unfolding register register_new_member query_member insert_member
  register-SameQueues p s = (ground arith, ground arith)

  pub update_balance-SameQueues :
      (p : UpdateBalancePayload) (s : ServerState R)
      → SameQueues s (update_balance rpc ids operator p s).1
  unfolding update_balance update_balance_onchain land_balance get_member_db
  update_balance-SameQueues p s = (ground arith, ground arith)

  pub member-SameQueues :
      (pubkey_from_str : Text → Option Pubkey) (path : Text) (s : ServerState R)
      → SameQueues s (member rpc ids operator pubkey_from_str path s).1
  unfolding member get_member_db
  member-SameQueues pubkey_from_str path s = (ground arith, ground arith)

  module _ (edit : List Pubkey → Io R (Unit {0})) where
    all_stakers-SameQueues :
        (bas : List BoostAccount) (s : ServerState R)
        → SameQueues s (all_stakers rpc ids operator edit bas s).1
    unfolding all_stakers get_stakers_db
    all_stakers-SameQueues [] s = (refl, refl)
    all_stakers-SameQueues (ba ∷ bas) s =
        let s₁ = (get_stakers_db rpc ids operator ba.mint s).1 in
        let rest = all_stakers-SameQueues bas s₁ in (ground (arith, rest.0), ground (arith, rest.1))

    put_entry-SameQueues :
        (entry : ClientPutEntry) (s : ServerState R)
        → SameQueues s (put_entry rpc ids operator edit entry s).1
    unfolding put_entry introduce
    put_entry-SameQueues entry s =
        let found = all_stakers-SameQueues operator.boost_accounts s in
        (ground (arith, found.0), ground (arith, found.1))

    get_staker_db-SameQueues :
        (authority mint : Pubkey) (s : ServerState R)
        → SameQueues s (get_staker_db rpc ids operator authority mint s).1
    unfolding get_staker_db
    get_staker_db-SameQueues authority mint s = (ground arith, ground arith)

    insert_staker-SameQueues :
        (p : RegisterStakerPayload) (s : ServerState R)
        → SameQueues s (insert_staker rpc ids operator p s).1
    unfolding insert_staker query_member
    insert_staker-SameQueues p s = (ground arith, ground arith)

    pub register_staker-SameQueues :
        (p : RegisterStakerPayload) (s : ServerState R)
        → SameQueues s (register_staker rpc ids operator edit p s).1
    unfolding register_staker register_new_staker watch
    register_staker-SameQueues p s =
        let asked = from_outside (get_staker_onchain rpc ids operator p.authority p.mint) s in
        elim (Result-cases asked.0) [
          | inr (x, e) ↦ (ground (arith, e), ground (arith, e))
          | inl (found, e) ↦
              let s₁ = (get_staker_db rpc ids operator p.authority p.mint asked.1).1 in
              let s₂ = (insert_staker rpc ids operator p s₁).1 in
              let entry : ClientPutEntry = record {
                share = found.1;
                authority = p.authority;
                mint = p.mint;
              } in
              let read = get_staker_db-SameQueues p.authority p.mint asked.1 in
              let written = insert_staker-SameQueues p s₁ in
              let told = put_entry-SameQueues entry s₁ in
              let told' = put_entry-SameQueues entry s₂ in
              (
                ground (arith, e, read.0, written.0, told.0, told'.0),
                ground (arith, e, read.1, written.1, told.1, told'.1),
              )
        ]

pub contribute-rewards :
    {R : Type 0} (rpc : Rpc R) (ids : Addresses) (operator : Operator) (checks : Checks)
    (p : ContributePayload) (s : ServerState R)
    → (contribute rpc ids operator checks p s).1.rewards ≡ s.rewards
unfolding contribute check_nonce get_member_db
contribute-rewards rpc ids operator checks p s = ground arith

pub share_account-SameQueues :
    {R : Type 0} (formats : Formats) (token : Text) (req : HttpRequest) (s : ServerState R)
    → SameQueues s (share_account formats token req s).1
unfolding share_account handle_share_account_event process_share_account_event
share_account-SameQueues formats token req s = (ground arith, ground arith)

pub rewards_resource-contributions :
    {R : Type 0} (formats : Formats) (token : Text) (req : HttpRequest) (s : ServerState R)
    → (rewards_resource formats token req s).1.contributions ≡ s.contributions
unfolding rewards_resource handle_rewards_event
rewards_resource-contributions formats token req s = ground arith
