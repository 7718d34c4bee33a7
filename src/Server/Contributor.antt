-- ===== src/Server/Contributor.antt =====
-- server/src/contributor.rs: what a miner asks of the server. A handler is a function of the request
-- and of what the tasks share; it answers with a status, and with a value where it succeeds.
pub mod Accounts
pub mod Contribute
pub mod Enrolment
pub mod Balance
pub mod Scores
use ore_pool.Prelude.{
  ℕ, ◌^◌, ◌%◌, List, [], ◌∷◌, ◌++◌, Option, none, some, Result, ok, err, Bool, true, false, ◌==◌,
  ltb, if◌then◌else◌, not, ok_or, guard,
}
use ore_pool.Prelude.Words.{u64_mod, from_le_bytes}
use ore_pool.Prelude.Text.{Text}
use ore_pool.Api.State.{Addresses, Pubkey, pool_pda, member_pda}
use ore_pool.Server.Error.{
  Error, internal, HttpStatus, status_ok, bad_request, unauthorized, not_found,
  internal_server_error, to_response, staker_does_not_exist, member_does_not_exist,
}
use ore_pool.Server.Io.{Io, ◌>>=◌, ◌>>◌, done, fail, lift, attempt}
use ore_pool.Server.Rpc.{Rpc, Signature, Hash}
use ore_pool.Server.State.{ServerState, from_outside, look, change, on_database}
use ore_pool.Server.Aggregator.{Challenge, Contribution, Solution, as_u64}
use ore_pool.Server.Nonce.{validate_nonce}
use ore_pool.Server.Operator.{Operator, buffer_client}
use ore_pool.Server.Operator.Reads.{
  get_member_db, get_member_onchain, get_staker_db, get_staker_onchain,
}
use ore_pool.Server.Database.{MemberRow, read_member, write_new_member, write_synced_members}
use ore_pool.Server.Database.Stakers.{Staker, write_new_staker}
use ore_pool.Server.Submit.{submit_and_confirm_transaction}
use ore_pool.Server.Validate.{Transaction, Outcome, returns, panics, validate_attribution}
use ore_pool.Server.Webhook.Client.{ClientPutEntry, put_entry}

-- The payloads of the requests and the values of the answers (types/src/lib.rs).
pub record RegisterPayload : Type 0 where
  pub authority : Pubkey

pub record RegisterStakerPayload : Type 0 where
  pub authority : Pubkey
  pub mint : Pubkey

pub record ContributePayload : Type 0 where
  pub authority : Pubkey
  pub solution : Solution
  pub signature : Signature

pub record UpdateBalancePayload : Type 0 where
  pub authority : Pubkey
  pub transaction : Transaction
  pub hash : Hash

pub record PoolAddress : Type 0 where
  pub address : Pubkey
  pub bump : ℕ

pub record MemberChallenge : Type 0 where
  pub challenge : Challenge
  pub buffer : ℕ
  pub num_total_members : ℕ

pub record BalanceUpdate : Type 0 where
  pub balance : ℕ
  pub signature : Signature

-- A status, with the value that the body shows.
abbrev pub Answer : Type 0 → Type 0
Answer A = HttpStatus × Option A

abbrev pub answer : {A : Type 0} → (Error → HttpStatus) → Result Error A → Answer A
answer refuse (ok value) = (status_ok, some value)
answer refuse (err e) = (refuse e, none)

-- The checks of drillx and of the signature scheme.
pub record Checks : Type 0 where
  pub difficulty : Solution → ℕ
  pub solution_to_bytes : Solution → List ℕ
  pub verify : Signature → Pubkey → List ℕ → Bool
  pub is_valid_digest : (challenge nonce digest : List ℕ) → Bool

-- `2u64.pow(difficulty)`, which wraps
unfoldable pub score_of : ℕ → ℕ
score_of difficulty = 2 ^ difficulty % u64_mod

unfoldable pub pool_address : Addresses → Operator → PoolAddress
pool_address ids operator =
    let pda = pool_pda ids operator.keypair in record { address = pda.0; bump = pda.1 }

unfoldable pub challenge : {R : Type 0} → ServerState R → MemberChallenge
challenge s = record {
  challenge = s.aggregator.challenge;
  buffer = buffer_client;
  num_total_members = s.aggregator.num_members;
}

module _ {R : Type 0} (rpc : Rpc R) (ids : Addresses) (operator : Operator) where
  -- `pubkey_from_str` reads the authority out of the path, once there is a connection.
  unfoldable pub member :
      (Text → Option Pubkey) → Text → ServerState R → Answer MemberRow × ServerState R
  member pubkey_from_str path s = elim (pubkey_from_str path) [
    | none ↦ ((not_found, none), (from_outside rpc.connect s).1)
    | some authority ↦
        let found = get_member_db rpc ids operator authority s in
        (answer (λ e. not_found) found.0, found.1)
  ]

  -- `validate_nonce` with its question to the database, which it asks when there are members.
  unfoldable pub check_nonce : Pubkey → (nonce num_members : ℕ) → Io (ServerState R) (Unit {0})
  check_nonce member_authority nonce num_members =
      if num_members == 0
      then done tt
      else get_member_db rpc ids operator member_authority
        >>= (λ row. lift (validate_nonce (ok row.id) nonce num_members))

  -- The receiver of the contributions runs as long as the server.
  unfoldable pub contribute :
      Checks → ContributePayload → ServerState R → HttpStatus × ServerState R
  contribute checks payload s =
      let solution = payload.solution in
      let current = s.aggregator.challenge in
      let num_members = s.aggregator.num_members in
      let difficulty = checks.difficulty solution in
      let checked = check_nonce payload.authority (from_le_bytes solution.n) num_members s in
      if not (checks.verify payload.signature payload.authority (checks.solution_to_bytes solution))
      then (unauthorized, s)
      else if ltb difficulty (current.min_difficulty % 2 ^ 32)
      then (bad_request, s)
      else if not (checks.is_valid_digest current.challenge solution.n solution.d)
      then (bad_request, s)
      else elim checked.0 [
        | err e ↦ (unauthorized, checked.1)
        | ok valid ↦ (
          status_ok,
          record checked.1 {
            contributions =
                checked.1.contributions
                ++ record {
                  member = payload.authority;
                  score = score_of difficulty;
                  solution = solution;
                }
                  ∷ [];
          },
        )
      ]
