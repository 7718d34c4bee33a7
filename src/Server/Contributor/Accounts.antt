-- ===== src/Server/Contributor/Accounts.antt =====
-- server/src/contributor.rs: registration of members and stakers, and the balance that a member has
-- written on chain. What the handler does is its inner function, then the answer.
use ore_pool.Prelude.{
  List, [], ◌∷◌, Option, none, some, Result, ok, err, false, ◌==◌, if◌then◌else◌, not, guard,
}
use ore_pool.Api.State.{Addresses, Pubkey, Member, pool_pda, member_pda}
use ore_pool.Server.Error.{
  Error, internal, internal_server_error, to_response, staker_does_not_exist, member_does_not_exist,
}
use ore_pool.Server.Io.{Io, ◌>>=◌, ◌>>◌, done, fail, lift, attempt}
use ore_pool.Server.Rpc.{Rpc}
use ore_pool.Server.State.{ServerState, from_outside, look, change, on_database}
use ore_pool.Server.Aggregator.{as_u64}
use ore_pool.Server.Operator.{Operator}
use ore_pool.Server.Operator.Reads.{
  get_member_db, get_member_onchain, get_staker_db, get_staker_onchain,
}
use ore_pool.Server.Database.{MemberRow, read_member, write_new_member, write_synced_members}
use ore_pool.Server.Database.Stakers.{Staker, write_new_staker}
use ore_pool.Server.Submit.{submit_and_confirm_transaction}
use ore_pool.Server.Validate.{Outcome, returns, panics, validate_attribution}
use ore_pool.Server.Webhook.Client.{put_entry}
use ore_pool.Server.Contributor.{
  RegisterPayload, RegisterStakerPayload, UpdateBalancePayload, BalanceUpdate, Answer, answer,
}

-- The payer of the fee is the first account key.
unfoldable pub fee_payer : Pubkey → List Pubkey → Result Error (Unit {0})
fee_payer keypair [] = err (internal "missing fee payer in update balance payload")
fee_payer keypair (payer ∷ keys) =
    guard (not (payer == keypair)) (internal "fee payer must be client for update balance")

module _ {R : Type 0} (rpc : Rpc R) (ids : Addresses) (operator : Operator) where
  abbrev pub pool_address_of : Pubkey
  pool_address_of = (pool_pda ids operator.keypair).0

  -- The row of an address, on a connection that is held.
  unfoldable pub query_member : Pubkey → Io (ServerState R) MemberRow
  query_member address = do
    from_outside rpc.run_statement
    found ← look (λ s. read_member s.members address)
    lift found

  unfoldable pub insert_member : Member → Io (ServerState R) MemberRow
  insert_member member = do
    from_outside rpc.run_statement
    written ← look (λ s. write_new_member ids s.members member false)
    inserted ← lift written
    change (λ s. record s { members = inserted.1 })
    done inserted.0

  unfoldable pub register_new_member : RegisterPayload → Io (ServerState R) MemberRow
  register_new_member payload = do
    member ← attempt (from_outside (get_member_onchain rpc ids operator payload.authority))
    from_outside rpc.connect
    elim member [
      | err e ↦ fail member_does_not_exist
      | ok found ↦ (do
        db_member ← attempt (query_member (member_pda ids payload.authority pool_address_of).0)
        elim db_member [ ok row ↦ done row | err e ↦ insert_member found ])
    ]

  unfoldable pub register : RegisterPayload → ServerState R → Answer MemberRow × ServerState R
  register payload s =
      let registered = register_new_member payload s in
      (answer to_response registered.0, registered.1)

  unfoldable pub insert_staker : RegisterStakerPayload → Io (ServerState R) Staker
  insert_staker payload = do
    from_outside rpc.connect
    member ← query_member (member_pda ids payload.authority pool_address_of).0
    from_outside rpc.run_statement
    written ← look (λ s.
        write_new_staker ids s.members s.stakers payload.authority pool_address_of payload.mint)
    inserted ← lift written
    change (λ s. record s { stakers = inserted.1 })
    done inserted.0

  module _ (edit : List Pubkey → Io R (Unit {0})) where
    unfoldable pub watch : RegisterStakerPayload → (share : Pubkey) → Io (ServerState R) (Unit {0})
    watch payload share =
        put_entry rpc ids operator edit
          (record { share = share; authority = payload.authority; mint = payload.mint })

    unfoldable pub register_new_staker : RegisterStakerPayload → Io (ServerState R) Staker
    register_new_staker payload = do
      staker ←
          attempt
            (from_outside (get_staker_onchain rpc ids operator payload.authority payload.mint))
      elim staker [
        | err e ↦ fail staker_does_not_exist
        | ok found ↦ (do
          db_staker ← attempt (get_staker_db rpc ids operator payload.authority payload.mint)
          elim db_staker [
            | ok row ↦ if row.webhook then done row else watch payload found.1 >> done row
            | err e ↦ (do row ← insert_staker payload; watch payload found.1; done row)
          ])
      ]

    unfoldable pub register_staker :
        RegisterStakerPayload → ServerState R → Answer Staker × ServerState R
    register_staker payload s =
        let registered = register_new_staker payload s in
        (answer to_response registered.0, registered.1)

  -- After the checks: sign, land, and mark the member as synced.
  unfoldable pub land_balance : UpdateBalancePayload → MemberRow → Io (ServerState R) BalanceUpdate
  land_balance payload member = do
    sig ← from_outside (
        submit_and_confirm_transaction rpc
          (rpc.partial_sign operator.keypair payload.hash payload.transaction))
    on_database rpc
    change (λ s. record s {
      members =
          write_synced_members s.members
            ((member_pda ids payload.authority pool_address_of).0 ∷ []);
    })
    done (record { balance = as_u64 member.total_balance; signature = sig })

  -- A panic of the check ends the request, and leaves the state as it is then.
  abbrev pub checked :
      {A B : Type 0}
      → Outcome A
      → (A → Io (ServerState R) B)
      → ServerState R
      → Outcome B × ServerState R
  checked panics next s = (panics, s)
  checked (returns r) next s = let after = (lift r >>= next) s in (returns after.0, after.1)

  unfoldable pub update_balance_onchain :
      UpdateBalancePayload → ServerState R → Outcome BalanceUpdate × ServerState R
  update_balance_onchain payload s =
      let tx = payload.transaction in
      let found =
        (do
          member ← get_member_db rpc ids operator payload.authority
          lift (fee_payer operator.keypair tx.account_keys)
          done member)
          s in
      elim found.0 [
        | err e ↦ (returns (err e), found.1)
        | ok member ↦
            checked (validate_attribution ids tx member.total_balance)
              (λ u. land_balance payload member) found.1
      ]

  -- Nothing is answered where the request panicked.
  abbrev pub answer_outcome : {A : Type 0} → Outcome A → Option (Answer A)
  answer_outcome panics = none
  answer_outcome (returns r) = some (answer (λ e. internal_server_error) r)

  unfoldable pub update_balance :
      UpdateBalancePayload → ServerState R → Option (Answer BalanceUpdate) × ServerState R
  update_balance payload s =
      let updated = update_balance_onchain payload s in (answer_outcome updated.0, updated.1)
