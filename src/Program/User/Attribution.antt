-- ===== src/Program/User/Attribution.antt =====
-- program/src/attribute.rs: what an attribution does to the member, and what it leaves alone.
use ore_pool.Prelude.{ℕ, ◌+◌, ◌-◌, ◌<◌, ◌≡◌, ok, [], ◌∷◌, some, true, arith, Option-cases, inl, inr}
use ore_pool.Prelude.Words.{u64_mod}
use ore_pool.Prelude.Store.{get}
use ore_pool.Api.State.{Addresses, Pool, Member}
use ore_pool.Program.Runtime.{AccountInfo, Runtime, Chain, set_member}
use ore_pool.Program.User.{attribute_accounts}

-- The member after its lifetime earnings were set.
abbrev pub attributed : Member → ℕ → Member
attributed m total_balance = record m {
  balance = m.balance + (total_balance - m.total_balance);
  total_balance = total_balance;
}

-- What held, and what was written, when an attribution succeeded.
pub record Attributes {X : Type 0} (rt : Runtime X) (c c' : Chain X)
    (signer_info pool_info member_info : AccountInfo) (total_balance : ℕ) : Type 0 where
  pub pool : Pool
  pub member : Member
  pub signed : rt.is_signer signer_info ≡ true
  pub mutable : rt.is_mutable member_info ≡ true
  pub pool_at : get pool_info.key c.pools ≡ some pool
  pub by_operator : pool.authority ≡ signer_info.key
  pub member_at : get member_info.key c.members ≡ some member
  pub of_pool : member.pool ≡ pool_info.key
  pub fits : member.balance + (total_balance - member.total_balance) < u64_mod
  pub written : c' ≡ set_member c member_info (attributed member total_balance)

module _ {X : Type 0} (rt : Runtime X) (ids : Addresses) where
  pub attribute_accounts-Attributes :
      (c : Chain X) {c' : Chain X} (s p m : AccountInfo) (t : ℕ)
      → attribute_accounts rt ids c (s ∷ p ∷ m ∷ []) t ≡ ok c'
      → Attributes rt c c' s p m t
  unfolding attribute_accounts
  attribute_accounts-Attributes c s p m t h = elim (Option-cases (get p.key c.pools)) [
    | inl e ↦ absurd (ground arith)
    | inr (pool, e) ↦ elim (Option-cases (get m.key c.members)) [
      | inl e' ↦ absurd (ground arith)
      | inr (member, e') ↦ record {
        pool = pool;
        member = member;
        signed = ground arith;
        mutable = ground arith;
        pool_at = e;
        by_operator = ground arith;
        member_at = e';
        of_pool = ground arith;
        fits = ground arith;
        written = ground arith;
      }
    ]
  ]
