-- ===== src/Server/Contributor/Enrolment.antt =====
-- server/src/contributor.rs: what a registration does, and that a second one finds the record.
use ore_pool.Prelude.{ok, false, ◌≡◌, ◌∙◌, ◌⊎◌, inl, inr, arith, Result-cases}
use mathlib.Core.Path.{subst}
use ore_pool.Api.State.{Addresses, Pubkey, Member, pool_pda, member_pda}
use ore_pool.Server.Operator.{Operator}
use ore_pool.Server.Operator.Reads.{get_member_onchain}
use ore_pool.Server.Rpc.{Rpc}
use ore_pool.Server.Database.{MemberRow, Members, read_member, write_new_member}
use ore_pool.Server.Database.Members.{
  write_new_member-read_member, Recorded, Enrols, write_new_member-Enrols,
}
use ore_pool.Server.State.{ServerState, from_outside}
use ore_pool.Server.Contributor.Accounts.{register_new_member, query_member, insert_member}

module _ {R : Type 0} (rpc : Rpc R) (ids : Addresses) (operator : Operator) where
  abbrev row_address : Pubkey → Pubkey
  row_address authority = (member_pda ids authority (pool_pda ids operator.keypair).0).0

  -- What the chain answers under a member's address is an account of that member in that pool.
  unfoldable pub IsTrueToAddress : Type 0
  IsTrueToAddress =
      (authority : Pubkey) (r : R) (member : Member)
      → (get_member_onchain rpc ids operator authority r).0 ≡ ok member
      → (member.authority ≡ authority) × (member.pool ≡ (pool_pda ids operator.keypair).0)

  written_recorded :
      (members : Members) (m : Member) (row : MemberRow) (after : Members)
      → write_new_member ids members m false ≡ ok (row, after)
      → read_member after (member_pda ids m.authority m.pool).0 ≡ ok row
  unfolding Recorded
  written_recorded members m row after h =
      let (address, reads, twice) =
        write_new_member-read_member ids members m false {row = row} {after = after} h in
      ground (arith, address, reads (member_pda ids m.authority m.pool).0)

  insert_recorded :
      (m : Member) (s s' : ServerState R) (row : MemberRow)
      → insert_member rpc ids operator m s ≡ (ok row, s')
      → read_member s'.members (member_pda ids m.authority m.pool).0 ≡ ok row
  unfolding insert_member
  insert_recorded m s s' row h = elim (Result-cases (write_new_member ids s.members m false)) [
    | inl ((row', after), e) ↦ ground (arith, e, h, written_recorded s.members m row' after e)
    | inr (x, e) ↦ absurd (ground (arith, e, h))
  ]

  query_member_ok :
      (s : ServerState R) (address : Pubkey) (row : MemberRow)
      → (query_member rpc ids operator address s).0 ≡ ok row
      → read_member (query_member rpc ids operator address s).1.members address ≡ ok row
  unfolding query_member
  query_member_ok s address row h = ground (arith, h)

  -- A member that registered with success has its record: under its address the row is read that
  -- was answered.
  pub register_new_member-read_member :
      IsTrueToAddress
      → (authority : Pubkey) (s s' : ServerState R) (row : MemberRow)
      → register_new_member rpc ids operator (record { authority = authority }) s ≡ (ok row, s')
      → read_member s'.members (row_address authority) ≡ ok row
  unfolding register_new_member IsTrueToAddress
  register_new_member-read_member true_to authority s s' row h =
      elim (Result-cases (get_member_onchain rpc ids operator authority s.outside).0) [
        | inr (x, e) ↦ absurd (ground (arith, e, h))
        | inl (m, e) ↦
            let (same, pool) = true_to authority s.outside m e in
            let after =
              (from_outside rpc.connect
                (from_outside (get_member_onchain rpc ids operator authority) s).1).1 in
            elim (Result-cases (query_member rpc ids operator (row_address authority) after).0) [
              | inl (found, e') ↦
                  ground (arith, e, e', h, query_member_ok after (row_address authority) found e')
              | inr (x, e') ↦ ground (
                arith,
                e,
                e',
                h,
                same,
                pool,
                insert_recorded m (query_member rpc ids operator (row_address authority) after).1 s'
                    row,
              )
            ]
      ]

  -- Once a member has its record, it registers with that record for an answer and the table stays as
  -- it is, whenever the chain shows its account and the database answers.
  pub register_new_member_again :
      (authority : Pubkey) (s : ServerState R) (m : Member) (row : MemberRow)
      → read_member s.members (row_address authority) ≡ ok row
      → (get_member_onchain rpc ids operator authority s.outside).0 ≡ ok m
      → ((r : R) → (rpc.connect r).0 ≡ ok tt)
      → ((r : R) → (rpc.run_statement r).0 ≡ ok tt)
      → ((register_new_member rpc ids operator (record { authority = authority }) s).0 ≡ ok row)
        × ((register_new_member rpc ids operator (record { authority = authority }) s).1.members
            ≡ s.members)
  unfolding register_new_member query_member
  register_new_member_again authority s m row known shown connects runs =
      let r = (get_member_onchain rpc ids operator authority s.outside).1 in
      (
        ground (arith, known, shown, connects r, runs (rpc.connect r).1),
        ground (arith, known, shown, connects r, runs (rpc.connect r).1),
      )

  insert_member-Enrols :
      (m : Member) (s s' : ServerState R) (row : MemberRow)
      → insert_member rpc ids operator m s ≡ (ok row, s')
      → Enrols ids m s.members s'.members row
  unfolding insert_member
  insert_member-Enrols m s s' row h = elim (Result-cases (write_new_member ids s.members m false)) [
    | inl ((row', after), e) ↦
        let same : row ≡ row' = ground (arith, e, h) in
        let last : s'.members ≡ after = ground (arith, e, h) in
        rw (same, last) (write_new_member-Enrols ids s.members m e)
    | inr (x, e) ↦ absurd (ground (arith, e, h))
  ]

  query_member-found :
      (s : ServerState R) (address : Pubkey) (row : MemberRow)
      → (query_member rpc ids operator address s).0 ≡ ok row
      → read_member s.members address ≡ ok row
  unfolding query_member
  query_member-found s address row h = ground (arith, h)

  query_member-members :
      (s : ServerState R) (address : Pubkey)
      → (query_member rpc ids operator address s).1.members ≡ s.members
  unfolding query_member
  query_member-members s address = ground arith

  -- What stands behind the answer to a registration.
  pub record Registers (authority : Pubkey) (s s' : ServerState R) (row : MemberRow) : Type 0 where
    pub member : Member
    pub shown : (get_member_onchain rpc ids operator authority s.outside).0 ≡ ok member
    pub recorded :
        ((read_member s.members (row_address authority) ≡ ok row) × (s'.members ≡ s.members))
        ⊎ Enrols ids member s.members s'.members row

  -- When a registration succeeds, the node showed the member's account, and either the answer is the
  -- record that the table had under the member's address and the table stays as it is; or a record
  -- was added at an address at which the table had none: with the account's id, authority and
  -- pool, the address of that authority in that pool, no earnings, neither approved nor checked,
  -- and marked as synced. It is read back under its address, and all other addresses read as before.
  pub register_new_member-Registers :
      (authority : Pubkey) (s s' : ServerState R) (row : MemberRow)
      → register_new_member rpc ids operator (record { authority = authority }) s ≡ (ok row, s')
      → Registers authority s s' row
  unfolding register_new_member
  register_new_member-Registers authority s s' row h =
      elim (Result-cases (get_member_onchain rpc ids operator authority s.outside).0) [
        | inr (x, e) ↦ absurd (ground (arith, e, h))
        | inl (m, e) ↦
            let after : ServerState R =
              (from_outside rpc.connect
                (from_outside (get_member_onchain rpc ids operator authority) s).1).1 in
            let queried : ServerState R =
              (query_member rpc ids operator (row_address authority) after).1 in
            let kept = query_member-members after (row_address authority) in
            elim (Result-cases (query_member rpc ids operator (row_address authority) after).0) [
              | inl (found, e') ↦
                  let same : found ≡ row = ground (arith, e, e', h) in
                  let last : s'.members ≡ queried.members = ground (arith, e, e', h) in
                  record {
                    member = m;
                    shown = e;
                    recorded = inl (
                      rw (← same) (query_member-found after (row_address authority) found e'),
                      last ∙ kept,
                    );
                  }
              | inr (x, e') ↦
                  let enrols = insert_member-Enrols m queried s' row (ground (arith, e, e', h)) in
                  record {
                    member = m;
                    shown = e;
                    recorded = inr (subst (λ t. Enrols ids m t s'.members row) kept enrols);
                  }
            ]
      ]
