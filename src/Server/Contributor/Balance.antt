-- ===== src/Server/Contributor/Balance.antt =====
-- server/src/contributor.rs, `update_balance`: what the operator has signed when a member is told
-- that its balance is written.
use ore_pool.Prelude.{
  ◌∷◌, [], List, ok, err, ◌≡◌, ◌≢◌, refl, ◌∙◌, inl, inr, ◌⊎◌, arith, Result-cases,
}
use ore_pool.Api.State.{Addresses, Pubkey, pool_pda, member_pda}
use ore_pool.Server.Aggregator.{as_u64}
use ore_pool.Server.Error.{Error}
use ore_pool.Server.Operator.{Operator}
use ore_pool.Server.Operator.Reads.{get_member_db}
use ore_pool.Server.Rpc.{Rpc}
use ore_pool.Server.Submit.{submit_and_confirm_transaction}
use ore_pool.Server.Submit.Attempts.{Lands, submit_and_confirm_transaction-Lands}
use ore_pool.Server.Validate.{Outcome, returns, panics, validate_attribution}
use ore_pool.Server.Validate.Exact.{IsAttribution, validate_attribution_iff}
use ore_pool.Server.Database.{MemberRow, read_member, write_synced_members}
use ore_pool.Server.State.{ServerState}
use ore_pool.Server.Contributor.{UpdateBalancePayload, BalanceUpdate}
use ore_pool.Server.Contributor.Accounts.{update_balance_onchain, land_balance, fee_payer}

fee_payer_ok :
    (keypair : Pubkey) (keys : List Pubkey)
    → fee_payer keypair keys ≡ ok tt
    → (payer : Pubkey) × (others : List Pubkey) × (keys ≡ payer ∷ others) × (payer ≢ keypair)
unfolding fee_payer
fee_payer_ok keypair [] h = absurd (ground (arith, h))
fee_payer_ok keypair (payer ∷ others) h = (payer, others, refl, ground (arith, h))

-- A check that did not pass.
abbrev Fails : Outcome (Unit {0}) → Type 0
Fails o = ((e : Error) × (o ≡ returns (err e))) ⊎ (o ≡ panics)

Outcome-cases : (o : Outcome (Unit {0})) → (o ≡ returns (ok tt)) ⊎ Fails o
Outcome-cases panics = inr (inr refl)
Outcome-cases (returns (ok u)) = inl refl
Outcome-cases (returns (err e)) = inr (inl (e, refl))

module _ {R : Type 0} (rpc : Rpc R) (ids : Addresses) (operator : Operator)
    (payload : UpdateBalancePayload) where
  abbrev own_address : Pubkey
  own_address = (member_pda ids payload.authority (pool_pda ids operator.keypair).0).0

  -- What stands behind an answer.
  pub record IsBacked (s s' : ServerState R) (update : BalanceUpdate) : Type 0 where
    pub row : MemberRow
    pub payer : Pubkey
    pub others : List Pubkey
    pub sent_at : R
    pub known : read_member s.members own_address ≡ ok row
    pub paid : payload.transaction.account_keys ≡ payer ∷ others
    pub paid_by_other : payer ≢ operator.keypair
    pub attribution : IsAttribution ids payload.transaction row.total_balance
    pub balance : update.balance ≡ as_u64 row.total_balance
    pub landed :
        Lands rpc
          (rpc.partial_sign operator.keypair payload.hash payload.transaction)
          update.signature
          sent_at
    pub synced : s'.members ≡ write_synced_members s.members (own_address ∷ [])

  get_member_db_ok :
      (s : ServerState R) (row : MemberRow)
      → (get_member_db rpc ids operator payload.authority s).0 ≡ ok row
      → (read_member s.members own_address ≡ ok row)
        × ((get_member_db rpc ids operator payload.authority s).1.members ≡ s.members)
  unfolding get_member_db
  get_member_db_ok s row h = (ground (arith, h), ground (arith, h))

  land_balance_ok :
      (row : MemberRow) (s s' : ServerState R) (update : BalanceUpdate)
      → land_balance rpc ids operator payload row s ≡ (ok update, s')
      → (update.balance ≡ as_u64 row.total_balance)
        × (s'.members ≡ write_synced_members s.members (own_address ∷ []))
        × ((submit_and_confirm_transaction rpc
              (rpc.partial_sign operator.keypair payload.hash payload.transaction)
              s.outside).0
            ≡ ok update.signature)
  unfolding land_balance
  land_balance_ok row s s' update h = (ground (arith, h), ground (arith, h), ground (arith, h))

  backed :
      (row : MemberRow) (s found s' : ServerState R) (update : BalanceUpdate)
      → (get_member_db rpc ids operator payload.authority s).0 ≡ ok row
      → (get_member_db rpc ids operator payload.authority s).1 ≡ found
      → fee_payer operator.keypair payload.transaction.account_keys ≡ ok tt
      → validate_attribution ids payload.transaction row.total_balance ≡ returns (ok tt)
      → land_balance rpc ids operator payload row found ≡ (ok update, s')
      → IsBacked s s' update
  backed row s found s' update e e' paid valid landed =
      let (payer, others, keys, other) =
        fee_payer_ok operator.keypair payload.transaction.account_keys paid in
      let (known, same) = get_member_db_ok s row e in
      let (balance, members, sig) = land_balance_ok row found s' update landed in
      let signed = rpc.partial_sign operator.keypair payload.hash payload.transaction in
      record {
        row = row;
        payer = payer;
        others = others;
        sent_at = (submit_and_confirm_transaction rpc signed found.outside).1;
        known = known;
        paid = keys;
        paid_by_other = other;
        attribution = (validate_attribution_iff ids payload.transaction row.total_balance).0 valid;
        balance = balance;
        landed =
            submit_and_confirm_transaction-Lands rpc signed update.signature found.outside _
              (ground (arith, sig));
        synced = members ∙ ground (arith, same, e');
      }

  bad_end :
      (row : MemberRow) (s s' : ServerState R) (update : BalanceUpdate)
      → (get_member_db rpc ids operator payload.authority s).0 ≡ ok row
      → fee_payer operator.keypair payload.transaction.account_keys ≡ ok tt
      → Fails (validate_attribution ids payload.transaction row.total_balance)
      → ¬ (update_balance_onchain rpc ids operator payload s ≡ (returns (ok update), s'))
  unfolding update_balance_onchain
  bad_end row s s' update e e' (inl (x, bad)) h = ground (arith, e, e', bad, h)
  bad_end row s s' update e e' (inr bad) h = ground (arith, e, e', bad, h)

  -- A member is told that its balance is written only where its record was read, the transaction is
  -- paid by another than the operator and ends, after compute budget instructions, in an
  -- instruction of the pool program with the record's balance in the eight bytes behind its first,
  -- whichever instruction and accounts these are, the transaction with the operator's signature
  -- landed under the signature in the answer, and the record is marked as synced.
  pub update_balance_onchain-IsBacked :
      (s s' : ServerState R) (update : BalanceUpdate)
      → update_balance_onchain rpc ids operator payload s ≡ (returns (ok update), s')
      → IsBacked s s' update
  unfolding update_balance_onchain
  update_balance_onchain-IsBacked s s' update h =
      elim (Result-cases (get_member_db rpc ids operator payload.authority s).0) [
        | inr (x, e) ↦ absurd (ground (arith, e, h))
        | inl (row, e) ↦
            elim (Result-cases (fee_payer operator.keypair payload.transaction.account_keys)) [
              | inr (x, e') ↦ absurd (ground (arith, e, e', h))
              | inl (u, e') ↦
                  elim (Outcome-cases
                    (validate_attribution ids payload.transaction row.total_balance)) [
                      | inl e'' ↦
                          backed row s _ s' update e refl e' e'' (ground (arith, e, e', e'', h))
                      | inr bad ↦ absurd (bad_end row s s' update e e' bad h)
                    ]
            ]
      ]
