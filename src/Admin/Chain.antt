-- ===== src/Admin/Chain.antt =====
-- The commands of admin/src against the program of program/src: what a node shows of the chain.
use ore_pool.Prelude.{
  ℕ, ◌≡◌, ◌∙◌, refl, List, Option, none, some, ok, Option-cases, arith, inl, inr, ◌⊎◌,
}
use ore_pool.Prelude.Store.{get}
use ore_pool.Api.State.{Addresses, Pubkey, Pool, Member, pool_pda, member_pda}
use ore_pool.Api.Sdk.{BuiltInstruction}
use ore_pool.Program.Runtime.{Runtime, Chain}
use ore_pool.Program.Built.{deliver}
use ore_pool.Admin.Node.{Node, AdminState, Line, send}
use ore_pool.Admin.Init.{create_pda, get_or_create_pda}

-- What no instruction changes of a pool.
abbrev pub identity_in : Option Pool → Option (Pubkey × List ℕ)
identity_in none = none
identity_in (some pool) = some (pool.authority, pool.url)

-- Two chains on which the operator's pool has the same authority and url, or is on neither, and which have the
-- same member account of the operator in that pool.
abbrev pub Agrees : {X : Type 0} → Addresses → Pubkey → Chain X → Chain X → Type 0
Agrees ids k c d =
    (identity_in (get (pool_pda ids k).0 c.pools) ≡ identity_in (get (pool_pda ids k).0 d.pools))
    × (get (member_pda ids k (pool_pda ids k).0).0 c.members
        ≡ get (member_pda ids k (pool_pda ids k).0).0 d.members)

-- The instruction has run, with anything that agrees on these accounts before and after it.
pub record Executed {X : Type 0} (rt : Runtime X) (ids : Addresses) (k : Pubkey)
    (ix : BuiltInstruction) (c c' : Chain X) : Type 0 where
  pub before : Chain X
  pub after : Chain X
  pub until : Agrees ids k before c
  pub ran : deliver rt ids before ix ≡ ok after
  pub since : Agrees ids k c' after

-- The instruction has run, or has not.
abbrev pub Ran :
    {X : Type 0} → Runtime X → Addresses → Pubkey → BuiltInstruction → Chain X → Chain X → Type 0
Ran rt ids k ix c c' = Agrees ids k c' c ⊎ Executed rt ids k ix c c'

-- The node answers with an account as the chain has it. The chain goes on in the meantime, but nobody
-- else gives the operator's pool another authority or url, or changes the operator's own member account;
-- and ten seconds after a transaction was sent it has been executed or has not.
pub record Follows {R X : Type 0} (rt : Runtime X) (ids : Addresses) (node : Node R) (k : Pubkey)
    : Type 0 where
  pub chain : R → Chain X
  pub fetch_agrees : (a : Pubkey) (r : R) → Agrees ids k (chain (node.fetch a r).1) (chain r)
  pub hash_agrees : (r : R) → Agrees ids k (chain (node.get_latest_blockhash r).1) (chain r)
  pub shows_pool :
      (a : Pubkey) (r : R) (bytes : List ℕ) (p : Pool)
      → (node.fetch a r).0 ≡ some bytes
      → node.pool_from_bytes bytes ≡ some p
      → get a (chain (node.fetch a r).1).pools ≡ some p
  pub shows_member :
      (a : Pubkey) (r : R) (bytes : List ℕ) (m : Member)
      → (node.fetch a r).0 ≡ some bytes
      → node.member_from_bytes bytes ≡ some m
      → get a (chain (node.fetch a r).1).members ≡ some m
  pub lands :
      (payer : Pubkey) (ix : BuiltInstruction) (hash : ℕ) (r : R)
      → Ran rt ids k ix (chain r) (chain (node.sleep 10 (node.send_transaction payer ix hash r).1))

module _ {X : Type 0} (rt : Runtime X) (ids : Addresses) (k : Pubkey) where
  Agrees-trans : (c d e : Chain X) → Agrees ids k c d → Agrees ids k d e → Agrees ids k c e
  Agrees-trans c d e (p, m) (p', m') = (p ∙ p', m ∙ m')

  -- What came before and after does not matter.
  Ran-within :
      (ix : BuiltInstruction) (c c₁ c₂ c₃ : Chain X)
      → Agrees ids k c₁ c
      → Ran rt ids k ix c₁ c₂
      → Agrees ids k c₃ c₂
      → Ran rt ids k ix c c₃
  Ran-within ix c c₁ c₂ c₃ first (inl same) last =
      inl (Agrees-trans c₃ c₂ c last (Agrees-trans c₂ c₁ c same first))
  Ran-within ix c c₁ c₂ c₃ first (inr w) last = inr (record {
    before = w.before;
    after = w.after;
    until = Agrees-trans w.before c₁ c w.until first;
    ran = w.ran;
    since = Agrees-trans c₃ c₂ w.after last w.since;
  })

module _ {R X : Type 0} (rt : Runtime X) (ids : Addresses) (node : Node R) (keypair : Pubkey)
    (f : Follows {X = X} rt ids node keypair) where
  create_pda-Ran :
      {T : Type 0} (try_from_bytes : List ℕ → Option T) (line : T → Line) (pda : Pubkey)
      (ix : BuiltInstruction) (at : Chain X → Option T)
      → ((r : R) (bytes : List ℕ) (t : T)
          → (node.fetch pda r).0 ≡ some bytes
          → try_from_bytes bytes ≡ some t
          → at (f.chain (node.fetch pda r).1) ≡ some t)
      → (s : AdminState R) {s' : AdminState R}
      → create_pda node keypair try_from_bytes line pda ix s ≡ (ok tt, s')
      → ((t : T) × (at (f.chain s'.outside) ≡ some t))
        × Ran rt ids keypair ix (f.chain s.outside) (f.chain s'.outside)
  unfolding create_pda send
  create_pda-Ran try_from_bytes line pda ix at shown s {s'} h =
      elim (Option-cases (node.get_latest_blockhash s.outside).0) [
        | inl e ↦ absurd (ground (arith, e, h))
        | inr (hash, e) ↦
            let r₁ = (node.get_latest_blockhash s.outside).1 in
            elim (Option-cases (node.send_transaction keypair ix hash r₁).0) [
              | inl e₁ ↦ absurd (ground (arith, e, e₁, h))
              | inr (sig, e₁) ↦
                  let r₂ = node.sleep 10 (node.send_transaction keypair ix hash r₁).1 in
                  elim (Option-cases (node.fetch pda r₂).0) [
                    | inl e₂ ↦ absurd (ground (arith, e, e₁, e₂, h))
                    | inr (bytes, e₂) ↦ elim (Option-cases (try_from_bytes bytes)) [
                      | inl e₃ ↦ absurd (ground (arith, e, e₁, e₂, e₃, h))
                      | inr (t, e₃) ↦
                          let last : s'.outside ≡ (node.fetch pda r₂).1 =
                            ground (arith, e, e₁, e₂, e₃, h) in
                          rw last (
                            (t, shown r₂ bytes t e₂ e₃),
                            Ran-within rt ids keypair ix (f.chain s.outside) (f.chain r₁)
                                (f.chain r₂) (f.chain (node.fetch pda r₂).1)
                                (f.hash_agrees s.outside) (f.lands keypair ix hash r₁)
                                (f.fetch_agrees pda r₂),
                          )
                    ]
                  ]
            ]
      ]

  pub get_or_create_pda-Ran :
      {T : Type 0} (try_from_bytes : List ℕ → Option T) (line : T → Line) (pda : Pubkey)
      (ix : BuiltInstruction) (at : Chain X → Option T)
      → ((r : R) (bytes : List ℕ) (t : T)
          → (node.fetch pda r).0 ≡ some bytes
          → try_from_bytes bytes ≡ some t
          → at (f.chain (node.fetch pda r).1) ≡ some t)
      → (s : AdminState R) {s' : AdminState R}
      → get_or_create_pda node keypair try_from_bytes line pda ix s ≡ (ok tt, s')
      → ((t : T) × (at (f.chain s'.outside) ≡ some t))
        × Ran rt ids keypair ix (f.chain s.outside) (f.chain s'.outside)
  unfolding get_or_create_pda
  get_or_create_pda-Ran try_from_bytes line pda ix at shown s {s'} h =
      elim (Option-cases (node.fetch pda s.outside).0) [
        | inl e ↦
            let s₁ = record s { outside = (node.fetch pda s.outside).1 } in
            let created : create_pda node keypair try_from_bytes line pda ix s₁ ≡ (ok tt, s') =
              ground (arith, e, h) in
            let (found, ran) = create_pda-Ran try_from_bytes line pda ix at shown s₁ created in
            (
              found,
              Ran-within rt ids keypair ix (f.chain s.outside) (f.chain s₁.outside)
                  (f.chain s'.outside) (f.chain s'.outside) (f.fetch_agrees pda s.outside) ran
                  (refl, refl),
            )
        | inr (bytes, e) ↦ elim (Option-cases (try_from_bytes bytes)) [
          | inl e₁ ↦ absurd (ground (arith, e, e₁, h))
          | inr (t, e₁) ↦
              let last : s'.outside ≡ (node.fetch pda s.outside).1 = ground (arith, e, e₁, h) in
              rw last ((t, shown s.outside bytes t e e₁), inl (f.fetch_agrees pda s.outside))
        ]
      ]
