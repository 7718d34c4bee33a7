-- ===== src/Server/Contributor/Contribute.antt =====
-- server/src/contributor.rs, `contribute`: which solutions are passed on to the aggregator.
use ore_pool.Prelude.{
  ℕ, ◌≤◌, ◌%◌, ◌^◌, ◌++◌, ◌∷◌, [], List, ok, true, ◌==◌, ◌≡◌, ◌↔◌, inl, inr, ◌⊎◌, arith,
  Result-cases, Bool-cases,
}
use mathlib.Core.List.{append-nil}
use ore_pool.Prelude.Words.{from_le_bytes}
use ore_pool.Api.State.{Addresses}
use ore_pool.Server.Aggregator.{Contribution, as_u64}
use ore_pool.Server.Database.{MemberRow}
use ore_pool.Server.Error.{HttpStatus, status_ok}
use ore_pool.Server.Nonce.{in_range, validate_nonce}
use ore_pool.Server.Operator.{Operator}
use ore_pool.Server.Operator.Reads.{get_member_db}
use ore_pool.Server.Rpc.{Rpc}
use ore_pool.Server.State.{ServerState}
use ore_pool.Server.Contributor.{Checks, ContributePayload, check_nonce, contribute, score_of}

-- Nothing but what lies outside, and the contributions that are given.
abbrev pub SameWith : {R : Type 0} → ServerState R → ServerState R → List Contribution → Type 0
SameWith after s contributions =
    (after.contributions ≡ contributions)
    × (after.aggregator ≡ s.aggregator)
    × (after.members ≡ s.members)
    × (after.stakers ≡ s.stakers)

-- What is passed on for an answer.
unfoldable pub passed_on : Checks → ContributePayload → HttpStatus → List Contribution
passed_on checks payload status_ok =
    record {
      member = payload.authority;
      score = score_of (checks.difficulty payload.solution);
      solution = payload.solution;
    }
    ∷ []
passed_on checks payload _ = []

module _ {R : Type 0} (rpc : Rpc R) (ids : Addresses) (operator : Operator) where
  -- A nonce that is the member's to search: there are no members yet, or the database knows the
  -- member and the nonce lies in its part.
  unfoldable pub IsOwnNonce : ContributePayload → ServerState R → Type 0
  IsOwnNonce payload s =
      (s.aggregator.num_members ≡ 0)
      ⊎ ((row : MemberRow) × ((get_member_db rpc ids operator payload.authority s).0 ≡ ok row)
          × (in_range s.aggregator.num_members (as_u64 row.id) (from_le_bytes payload.solution.n)
              ≡ true))

  passes-IsOwnNonce :
      (payload : ContributePayload) (s : ServerState R)
      → (check_nonce rpc ids operator payload.authority
          (from_le_bytes payload.solution.n)
          s.aggregator.num_members
          s).0
        ≡ ok tt
      → IsOwnNonce payload s
  unfolding check_nonce IsOwnNonce validate_nonce
  passes-IsOwnNonce payload s h = elim (Bool-cases (s.aggregator.num_members == 0)) [
    | inl e ↦ inl (ground (arith, e))
    | inr e ↦ elim (Result-cases (get_member_db rpc ids operator payload.authority s).0) [
      | inl (row, e') ↦ inr (row, e', ground (arith, e, e', h))
      | inr (x, e') ↦ absurd (ground (arith, e, e', h))
    ]
  ]

  IsOwnNonce-passes :
      (payload : ContributePayload) (s : ServerState R)
      → IsOwnNonce payload s
      → (check_nonce rpc ids operator payload.authority
          (from_le_bytes payload.solution.n)
          s.aggregator.num_members
          s).0
        ≡ ok tt
  unfolding check_nonce IsOwnNonce validate_nonce
  IsOwnNonce-passes payload s (inl e) = ground (arith, e)
  IsOwnNonce-passes payload s (inr (row, e, h)) = ground (arith, e, h)

  -- What a solution needs to be taken.
  unfoldable pub IsAdmissible : Checks → ContributePayload → ServerState R → Type 0
  IsAdmissible checks payload s =
      (checks.verify payload.signature payload.authority (checks.solution_to_bytes payload.solution)
        ≡ true)
      × (s.aggregator.challenge.min_difficulty % 2 ^ 32 ≤ checks.difficulty payload.solution)
      × (checks.is_valid_digest s.aggregator.challenge.challenge payload.solution.n
            payload.solution.d
          ≡ true)
      × IsOwnNonce payload s

  check_nonce_same :
      (payload : ContributePayload) (nonce num_members : ℕ) (s : ServerState R)
      → SameWith
          (check_nonce rpc ids operator payload.authority nonce num_members s).1
          s
          s.contributions
  unfolding check_nonce get_member_db
  check_nonce_same payload nonce num_members s =
      (ground arith, ground arith, ground arith, ground arith)

  accepted-IsAdmissible :
      (checks : Checks) (payload : ContributePayload) (s : ServerState R)
      → (contribute rpc ids operator checks payload s).0 ≡ status_ok
      → IsAdmissible checks payload s
  unfolding contribute IsAdmissible
  accepted-IsAdmissible checks payload s h =
      elim (Result-cases
        (check_nonce rpc ids operator payload.authority (from_le_bytes payload.solution.n)
          s.aggregator.num_members s).0) [
            | inl (u, e) ↦ (
              ground (arith, e, h),
              ground (arith, e, h),
              ground (arith, e, h),
              passes-IsOwnNonce payload s e,
            )
            | inr (x, e) ↦ absurd (ground (arith, e, h))
          ]

  IsAdmissible-accepted :
      (checks : Checks) (payload : ContributePayload) (s : ServerState R)
      → IsAdmissible checks payload s
      → (contribute rpc ids operator checks payload s).0 ≡ status_ok
  unfolding contribute IsAdmissible
  IsAdmissible-accepted checks payload s (signed, hard, valid, own) =
      ground (arith, signed, hard, valid, IsOwnNonce-passes payload s own)

  -- A solution is answered with success exactly if it is signed by the member, as difficult as the
  -- challenge asks, valid for the challenge, and of a nonce that is the member's to search.
  pub contribute_iff :
      (checks : Checks) (payload : ContributePayload) (s : ServerState R)
      → ((contribute rpc ids operator checks payload s).0 ≡ status_ok)
        ↔ IsAdmissible checks payload s
  contribute_iff checks payload s =
      (accepted-IsAdmissible checks payload s, IsAdmissible-accepted checks payload s)

  -- A solution that is answered with success is passed on once, with the member and the score of its
  -- difficulty; any other answer passes nothing on. Neither the aggregator nor the tables change.
  pub contribute-contributions :
      (checks : Checks) (payload : ContributePayload) (s : ServerState R)
      → let (status, after) = contribute rpc ids operator checks payload s in
        SameWith after s (s.contributions ++ passed_on checks payload status)
  unfolding contribute passed_on
  contribute-contributions checks payload s =
      let (u, v, w, z) =
        check_nonce_same payload (from_le_bytes payload.solution.n) s.aggregator.num_members s in
      elim (Result-cases
        (check_nonce rpc ids operator payload.authority (from_le_bytes payload.solution.n)
          s.aggregator.num_members s).0) [
            | inl (x, e) ↦ (
              ground (arith, e, u, append-nil s.contributions),
              ground (arith, e, v),
              ground (arith, e, w),
              ground (arith, e, z),
            )
            | inr (x, e) ↦ (
              ground (arith, e, u, append-nil s.contributions),
              ground (arith, e, v),
              ground (arith, e, w),
              ground (arith, e, z),
            )
          ]
