-- ===== src/Server/Tasks/Restaking.antt =====
-- server/src/main.rs and webhook.rs: the steps that change the balances of the stakers, and the
-- one that leaves the aggregator alone.
use ore_pool.Prelude.{◌≡◌, refl, List, [], ◌∷◌, arith, Result-cases, Option-cases, inl, inr}
use ore_pool.Prelude.Store.{get, put}
use ore_pool.Api.State.{Addresses, Pubkey}
use ore_pool.Server.Io.{Io}
use ore_pool.Server.Rpc.{Rpc}
use ore_pool.Server.State.{ServerState, from_outside}
use ore_pool.Server.Operator.{Operator, BoostAccount}
use ore_pool.Server.Operator.Reads.{
  fetch_stakers, get_stakers_onchain, commit_stake, get_stakers_db,
}
use ore_pool.Server.Aggregator.{Stakers}
use ore_pool.Server.Webhook.{
  process_share_account_event, rewards_resource, handle_rewards_event, lowered,
}
use ore_pool.Program.Stakes.{UnstakeEvent}
use ore_pool.Prelude.Text.{Text}
use ore_pool.Server.Webhook.Decode.{Formats, HttpRequest}
use ore_pool.Server.Webhook.Client.{introduced, introduce, ClientPutEntry}
use ore_pool.Server.Tasks.{commit_stake_and_count}

-- A step that changes no more of the aggregator than the balances of the stakers.
abbrev pub Restakes : {R A : Type 0} → Io (ServerState R) A → Type 0
Restakes {R} io =
    (s : ServerState R)
    → (stake : Stakers) × ((io s).1.aggregator ≡ record s.aggregator { stake = stake })

pub process_share_account_event-Restakes :
    {R : Type 0} (event : UnstakeEvent) → Restakes {R = R} (process_share_account_event event)
unfolding process_share_account_event
process_share_account_event-Restakes event s =
    elim (Option-cases (get event.mint s.aggregator.stake)) [
      | inl e ↦ (s.aggregator.stake, ground (arith, e))
      | inr (balances, e) ↦ (
        put event.mint (lowered event.authority event.balance balances) s.aggregator.stake,
        ground (arith, e),
      )
    ]

pub introduce-Restakes : {R : Type 0} (entry : ClientPutEntry) → Restakes {R = R} (introduce entry)
unfolding introduce
introduce-Restakes entry s = elim (Option-cases (get entry.mint s.aggregator.stake)) [
  | inl e ↦ (s.aggregator.stake, ground (arith, e))
  | inr (balances, e) ↦
      (put entry.mint (introduced entry.authority balances) s.aggregator.stake, ground (arith, e))
]

pub rewards_resource-aggregator :
    {R : Type 0} (formats : Formats) (token : Text) (req : HttpRequest) (s : ServerState R)
    → (rewards_resource formats token req s).1.aggregator ≡ s.aggregator
unfolding rewards_resource handle_rewards_event
rewards_resource-aggregator formats token req s = ground arith

module _ {R : Type 0} (rpc : Rpc R) (ids : Addresses) (operator : Operator) where
  get_stakers_onchain-aggregator :
      (mint : Pubkey) (s : ServerState R)
      → (get_stakers_onchain rpc ids operator mint s).1.aggregator ≡ s.aggregator
  unfolding get_stakers_onchain get_stakers_db
  get_stakers_onchain-aggregator mint s = ground arith

  fetch_stakers-aggregator :
      (bas : List BoostAccount) (stake : Stakers) (s : ServerState R)
      → (fetch_stakers rpc ids operator bas stake s).1.aggregator ≡ s.aggregator
  unfolding fetch_stakers
  fetch_stakers-aggregator [] stake s = refl
  fetch_stakers-aggregator (ba ∷ bas) stake s =
      let found = get_stakers_onchain rpc ids operator ba.mint s in
      elim (Result-cases found.0) [
        | inl (balances, e) ↦ ground (
          arith,
          e,
          get_stakers_onchain-aggregator ba.mint s,
          fetch_stakers-aggregator bas (put ba.mint balances stake) found.1,
        )
        | inr (x, e) ↦ ground (arith, e, get_stakers_onchain-aggregator ba.mint s)
      ]

  pub commit_stake_and_count-Restakes : Restakes (commit_stake_and_count rpc ids operator)
  unfolding commit_stake_and_count
  commit_stake_and_count-Restakes s =
      let committed = (from_outside (commit_stake rpc ids operator) s).1 in
      let counted = fetch_stakers rpc ids operator operator.boost_accounts [] committed in
      elim (Result-cases (commit_stake rpc ids operator s.outside).0) [
        | inr (x, e) ↦ (s.aggregator.stake, ground (arith, e))
        | inl (u, e) ↦ elim (Result-cases counted.0) [
          | inl (stake, e') ↦ (
            stake,
            ground (arith, e, e', fetch_stakers-aggregator operator.boost_accounts [] committed),
          )
          | inr (x, e') ↦ (
            s.aggregator.stake,
            ground (arith, e, e', fetch_stakers-aggregator operator.boost_accounts [] committed),
          )
        ]
      ]
