-- ===== src/Admin/Ready.antt =====
-- admin/src/init.rs over the chain: what stands there when `init` succeeded.
use ore_pool.Prelude.{
  ℕ, ◌≡◌, refl, List, Option, none, some, ok, Result-cases, arith, inl, inr, ap, ◌∙◌,
}
use ore_pool.Prelude.Store.{get}
use ore_pool.Api.State.{Addresses, Pubkey, Pool, Member, pool_pda, member_pda}
use ore_pool.Api.Sdk.{BuiltInstruction, build_join}
use ore_pool.Api.Sdk.Operations.{build_launch, url_to_bytes}
use ore_pool.Program.Runtime.{Runtime, Chain}
use ore_pool.Admin.Node.{Node, AdminState, Line, print}
use ore_pool.Admin.Init.{init, get_or_create_pda}
use ore_pool.Admin.Chain.{identity_in, Follows, Ran, get_or_create_pda-Ran}
use ore_pool.Admin.Accounts.{own_pool, own_member, launch-pools, join-members}

-- The two accounts of the operator stand on the chain: of those that were missing, the pool has the
-- operator as its authority and the url, filled up with zeros, and the member account is one of that pool without earnings.
pub record IsReady {X : Type 0} (ids : Addresses) (k : Pubkey) (url : List ℕ)
    (before after : Chain X) : Type 0 where
  pub pool : Pool
  pub member : Member
  pub pool_at : get (pool_pda ids k).0 after.pools ≡ some pool
  pub member_at : get (member_pda ids k (pool_pda ids k).0).0 after.members ≡ some member
  pub new_pool :
      get (pool_pda ids k).0 before.pools ≡ none
      → (pool.authority ≡ k) × (url_to_bytes url ≡ ok pool.url)
  pub new_member :
      get (member_pda ids k (pool_pda ids k).0).0 before.members ≡ none
      → (member.pool ≡ (pool_pda ids k).0) × (member.authority ≡ k) × (member.total_balance ≡ 0)

module _ {X : Type 0} (rt : Runtime X) (ids : Addresses) (k : Pubkey) where
  identity_of :
      (o : Option Pool) (p : Pool)
      → identity_in o ≡ some (p.authority, p.url)
      → (q : Pool) × (o ≡ some q) × (q.authority ≡ p.authority) × (q.url ≡ p.url)
  identity_of none p h = absurd (ground (arith, h))
  identity_of (some q) p h = (q, refl, ground (arith, h), ground (arith, h))

  abbrev IsNew : List ℕ → Pool → Type 0
  IsNew url p = (p.authority ≡ k) × (url_to_bytes url ≡ ok p.url)

  -- What the launch leaves, whether it ran or not.
  launch-or-not :
      (c c' : Chain X) (url : List ℕ) (ix : BuiltInstruction)
      → build_launch ids k k url ≡ ok ix
      → (p : Pool) → get (own_pool rt ids k) c'.pools ≡ some p
      → Ran rt ids k ix c c'
      → (get (own_pool rt ids k) c.pools ≡ none → IsNew url p)
        × (get (own_member rt ids k) c'.members ≡ get (own_member rt ids k) c.members)
  launch-or-not c c' url ix built p at (inl (pools, members)) =
      ((λ gone. absurd (ground (arith, pools, at, gone))), members)
  launch-or-not c c' url ix built p at (inr w) =
      let (q, own, padded, now, others) = launch-pools rt ids k w.before url ix built w.ran in
      (
        (λ gone. (
          ground (arith, now (own_pool rt ids k), at, own, w.since.0),
          ground (arith, now (own_pool rt ids k), at, padded, w.since.0),
        )),
        w.since.1 ∙ ap (λ ms. get (own_member rt ids k) ms) others ∙ w.until.1,
      )

  join-or-not :
      (c c₁ c₂ : Chain X) (url : List ℕ) (p : Pool) (m : Member)
      → get (own_pool rt ids k) c₁.pools ≡ some p
      → (get (own_pool rt ids k) c.pools ≡ none → IsNew url p)
      → get (own_member rt ids k) c₁.members ≡ get (own_member rt ids k) c.members
      → get (own_member rt ids k) c₂.members ≡ some m
      → Ran rt ids k (build_join ids k (own_pool rt ids k) k) c₁ c₂
      → IsReady ids k url c c₂
  join-or-not c c₁ c₂ url p m at new others found (inl (pools, members)) =
      let (q, q_at, same, same_url) =
        identity_of (get (own_pool rt ids k) c₂.pools) p (ground (arith, pools, at)) in
      record {
        pool = q;
        member = m;
        pool_at = q_at;
        member_at = found;
        new_pool = λ gone. (same ∙ (new gone).0, ground (arith, same_url, (new gone).1));
        new_member = λ gone. absurd (ground (arith, members, others, found, gone));
      }
  join-or-not c c₁ c₂ url p m at new others found (inr w) =
      let (q, n, before, after, made, fresh) = join-members rt ids k w.before w.ran in
      let q_same : q.authority ≡ p.authority = ground (arith, before, at, w.until.0) in
      let q_url : q.url ≡ p.url = ground (arith, before, at, w.until.0) in
      let (q₂, q₂_at, same, same_url) =
        identity_of (get (own_pool rt ids k) c₂.pools) q (ground (arith, w.since.0, after)) in
      let n_is : m ≡ n = ground (arith, found, made, w.since.1) in
      record {
        pool = q₂;
        member = m;
        pool_at = q₂_at;
        member_at = found;
        new_pool =
            λ gone. (same ∙ q_same ∙ (new gone).0, ground (arith, same_url, q_url, (new gone).1));
        new_member = λ gone. rw (n_is, fresh) (refl, refl, refl);
      }

module _ {R X : Type 0} (rt : Runtime X) (ids : Addresses) (node : Node R) (k : Pubkey)
    (f : Follows {X = X} rt ids node k) where
  -- When `init` succeeds, the pool of the operator and its own member account stand on the chain: if
  -- the pool was missing, it has the operator as its authority and the url given, filled up to its
  -- length; and if the member account was missing, it is the operator's in that pool and has no
  -- lifetime earnings; if the node answers with what the chain has, nobody else gives that pool
  -- another authority or url or changes that member account while the command runs, and a
  -- transaction is executed within the ten seconds or not at all.
  pub init-IsReady :
      (s : AdminState R) {s' : AdminState R} (url : List ℕ)
      → init ids node k (some url) s ≡ (ok tt, s')
      → IsReady ids k url (f.chain s.outside) (f.chain s'.outside)
  unfolding init
  init-IsReady s {s'} url h = elim (Result-cases (build_launch ids k k url)) [
    | inr (x, e) ↦ absurd (ground (arith, e, h))
    | inl (ix, e) ↦
        let s₁ : AdminState R = (print (Line.pool_address (pool_pda ids k).0) s).1 in
        let s₂ : AdminState R =
          (get_or_create_pda node k node.pool_from_bytes Line.pool (pool_pda ids k).0 ix s₁).1 in
        elim (Result-cases
          (get_or_create_pda node k node.pool_from_bytes Line.pool (pool_pda ids k).0 ix s₁).0) [
            | inr (x, e₁) ↦ absurd (ground (arith, e, e₁, h))
            | inl (done₁, e₁) ↦
                let first : get_or_create_pda node k node.pool_from_bytes Line.pool
                      (pool_pda ids k).0 ix s₁
                    ≡ (ok tt, s₂) =
                  ground (arith, e₁) in
                let s₃ : AdminState R =
                  (print (Line.member_address (member_pda ids k (pool_pda ids k).0).0) s₂).1 in
                let second : get_or_create_pda node k node.member_from_bytes Line.member
                      (member_pda ids k (pool_pda ids k).0).0
                      (build_join ids k (pool_pda ids k).0 k) s₃
                    ≡ (ok tt, s') =
                  ground (arith, e, e₁, h) in
                let ((p, p_at), launch) =
                  get_or_create_pda-Ran rt ids node k f node.pool_from_bytes Line.pool
                    (pool_pda ids k).0 ix (λ c. get (pool_pda ids k).0 c.pools)
                    (f.shows_pool (pool_pda ids k).0) s₁ first in
                let ((m, m_at), join) =
                  get_or_create_pda-Ran rt ids node k f node.member_from_bytes Line.member
                    (member_pda ids k (pool_pda ids k).0).0 (build_join ids k (pool_pda ids k).0 k)
                    (λ c. get (member_pda ids k (pool_pda ids k).0).0 c.members)
                    (f.shows_member (member_pda ids k (pool_pda ids k).0).0) s₃ second in
                let (new, others) =
                  launch-or-not rt ids k (f.chain s.outside) (f.chain s₂.outside) url ix e p p_at
                    launch in
                join-or-not rt ids k (f.chain s.outside) (f.chain s₂.outside) (f.chain s'.outside)
                  url p m p_at new others m_at join
          ]
  ]
