-- ===== src/Program/User/Claims.antt =====
-- program/src/claim.rs: what held, and what was written, when a claim succeeded.
use ore_pool.Prelude.{◌-◌, ◌≤◌, ◌≡◌, ok, List, [], ◌∷◌, some, true, arith, Option-cases, inl, inr}
use ore_pool.Prelude.Words.{from_le_bytes}
use ore_pool.Prelude.Store.{get}
use ore_pool.Api.State.{Addresses, Pool, Member, bytes, key, pool_seed}
use ore_pool.Api.Instruction.{ClaimArgs}
use ore_pool.Program.Runtime.{AccountInfo, Runtime, Chain, set_member, Instruction, TokenAccount}
use ore_pool.Program.User.{claim_accounts}

pub record Claims {X : Type 0} (rt : Runtime X) (ids : Addresses) (c c' : Chain X)
    (signer_info beneficiary_info member_info pool_info : AccountInfo) (called : List AccountInfo)
    (args : ClaimArgs) : Type 0 where
  pub member : Member
  pub pool : Pool
  pub beneficiary : TokenAccount
  pub after : X
  pub signed : rt.is_signer signer_info ≡ true
  pub beneficiary_at : rt.to_token_account c.outside beneficiary_info ≡ some beneficiary
  pub of_mint : beneficiary.mint ≡ ids.ore_mint
  pub member_at : get member_info.key c.members ≡ some member
  pub own_member : member.authority ≡ signer_info.key
  pub of_pool : member.pool ≡ pool_info.key
  pub pool_at : get pool_info.key c.pools ≡ some pool
  pub covered : from_le_bytes args.amount ≤ member.balance
  pub paid :
      rt.invoke
        (Instruction.ore_claim pool_info.key beneficiary_info.key (from_le_bytes args.amount))
        called
        (pool_seed ∷ key pool.authority ∷ bytes args.pool_bump ∷ [])
        c.outside
      ≡ some after
  pub written :
      c'
      ≡ record (set_member c member_info
          (record member { balance = member.balance - from_le_bytes args.amount })) {
            outside = after;
          }

module _ {X : Type 0} (rt : Runtime X) (ids : Addresses) where
  -- A claim that succeeds is signed by the member, whose account is of the named pool and covers the
  -- amount; exactly that amount leaves its balance, no other account of the program changes, and the
  -- ore program pays out that amount for the pool, signed with the pool's seeds.
  pub claim_accounts-Claims :
      (c : Chain X) {c' : Chain X} (s b m p pr tr tt' op tp : AccountInfo) (args : ClaimArgs)
      → claim_accounts rt ids c (s ∷ b ∷ m ∷ p ∷ pr ∷ tr ∷ tt' ∷ op ∷ tp ∷ []) args ≡ ok c'
      → Claims rt ids c c' s b m p (p ∷ b ∷ pr ∷ tr ∷ tt' ∷ tp ∷ []) args
  unfolding claim_accounts
  claim_accounts-Claims c s b m p pr tr tt' op tp args h =
      elim (Option-cases (get m.key c.members)) [
        | inl e ↦ absurd (ground arith)
        | inr (member, e) ↦ elim (Option-cases (get p.key c.pools)) [
          | inl e' ↦ absurd (ground arith)
          | inr (pool, e') ↦ elim (Option-cases (rt.to_token_account c.outside b)) [
            | inl e₂ ↦ absurd (ground arith)
            | inr (t, e₂) ↦
                elim (Option-cases (
                  rt.invoke (Instruction.ore_claim p.key b.key (from_le_bytes args.amount))
                    (p ∷ b ∷ pr ∷ tr ∷ tt' ∷ tp ∷ [])
                    (pool_seed ∷ key pool.authority ∷ bytes args.pool_bump ∷ []) c.outside)) [
                      | inl e₃ ↦ absurd (ground arith)
                      | inr (after, e₃) ↦ record {
                        member = member;
                        pool = pool;
                        beneficiary = t;
                        after = after;
                        signed = ground arith;
                        beneficiary_at = e₂;
                        of_mint = ground arith;
                        member_at = e;
                        own_member = ground arith;
                        of_pool = ground arith;
                        pool_at = e';
                        covered = ground arith;
                        paid = e₃;
                        written = ground arith;
                      }
                    ]
          ]
        ]
      ]
