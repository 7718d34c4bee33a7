-- ===== src/Program/User/Joins.antt =====
-- program/src/join.rs: what held, and what was written, when a member joined.
use ore_pool.Prelude.{
  ℕ, ◌+◌, ◌<◌, ◌≡◌, ok, List, [], ◌∷◌, none, some, arith, Option-cases, inl, inr,
}
use ore_pool.Prelude.Words.{u64_mod}
use ore_pool.Prelude.Store.{get, put}
use ore_pool.Api.State.{Addresses, Pool, Member}
use ore_pool.Program.Runtime.{AccountInfo, Runtime, Chain}
use ore_pool.Program.User.{join_accounts}

-- A new member of a pool: it takes the next number.
abbrev pub joined : Pool → ℕ → ℕ → Member
joined pool pool_key authority = record {
  id = pool.total_members;
  pool = pool_key;
  authority = authority;
  balance = 0;
  total_balance = 0;
}

pub record Joins {X : Type 0} (rt : Runtime X) (c c' : Chain X)
    (member_authority_info member_info pool_info : AccountInfo) : Type 0 where
  pub pool : Pool
  pub pool_at : get pool_info.key c.pools ≡ some pool
  pub vacant : get member_info.key c.members ≡ none
  pub fits : pool.total_members + 1 < u64_mod
  pub members_written :
      c'.members
      ≡ put member_info.key (joined pool pool_info.key member_authority_info.key) c.members
  pub pools_written :
      c'.pools ≡ put pool_info.key (record pool { total_members = pool.total_members + 1 }) c.pools

module _ {X : Type 0} (rt : Runtime X) (ids : Addresses) where
  pub join_accounts-Joins :
      (c : Chain X) {c' : Chain X} (s a m p sp : AccountInfo) (bump : List ℕ)
      → join_accounts rt ids c (s ∷ a ∷ m ∷ p ∷ sp ∷ []) bump ≡ ok c'
      → Joins rt c c' a m p
  unfolding join_accounts
  join_accounts-Joins c s a m p sp bump h = elim (Option-cases (get p.key c.pools)) [
    | inl e ↦ absurd (ground arith)
    | inr (pool, e) ↦ record {
      pool = pool;
      pool_at = e;
      vacant = ground arith;
      fits = ground arith;
      members_written = ground arith;
      pools_written = ground arith;
    }
  ]
