-- ===== src/Program/Numbering/Growth.antt =====
-- Pools that only count more members, and members that stay under their numbers.
use ore_pool.Prelude.{◌≤◌, ◌<◌, ◌≡◌, refl, sym, ◌∙◌, some, arith, ◌==◌, Bool-cases, inl, inr}
use ore_pool.Prelude.Store.{Store, get, put, get-put}
use ore_pool.Api.State.{Pubkey, Pool, Member}
use ore_pool.Program.Runtime.{Chain}

-- Every member has a number below its pool's count, and no two members of a pool share one.
pub record IsNumbered {X : Type 0} (c : Chain X) : Type 0 where
  pub below :
      (k : Pubkey) (m : Member)
      → get k c.members ≡ some m
      → (p : Pool) × (get m.pool c.pools ≡ some p) × (m.id < p.total_members)
  pub distinct :
      (j k : Pubkey) (m n : Member)
      → get j c.members ≡ some m
      → get k c.members ≡ some n
      → m.pool ≡ n.pool
      → m.id ≡ n.id
      → j ≡ k

-- No pool is closed, and none counts fewer members.
abbrev pub PoolsGrow : Store Pool → Store Pool → Type 0
PoolsGrow s s' =
    (q : Pubkey) (p : Pool)
    → get q s ≡ some p
    → (p' : Pool) × (get q s' ≡ some p') × (p.total_members ≤ p'.total_members)

-- Every member was there before, under the same number and in the same pool.
abbrev pub MembersStay : Store Member → Store Member → Type 0
MembersStay s s' =
    (k : Pubkey) (m' : Member)
    → get k s' ≡ some m'
    → (m : Member) × (get k s ≡ some m) × (m.id ≡ m'.id) × (m.pool ≡ m'.pool)

pub same-PoolsGrow : {s s' : Store Pool} → s' ≡ s → PoolsGrow s s'
same-PoolsGrow e q p at = (p, rw e at, omega arith)

pub same-MembersStay : {s s' : Store Member} → s' ≡ s → MembersStay s s'
same-MembersStay e k m at = (m, rw e at at, refl, refl)

pub put-PoolsGrow :
    (s : Store Pool) (at : Pubkey) (new : Pool)
    → ((p : Pool) → get at s ≡ some p → p.total_members ≤ new.total_members)
    → PoolsGrow s (put at new s)
put-PoolsGrow s at new up q p e = elim (Bool-cases (q == at)) [
  | inl hit ↦ (new, ground (arith, get-put q at new s), up p (ground arith))
  | inr miss ↦ (p, ground (arith, get-put q at new s), omega arith)
]

pub put-MembersStay :
    (s : Store Member) (at : Pubkey) (old new : Member)
    → get at s ≡ some old
    → old.id ≡ new.id
    → old.pool ≡ new.pool
    → MembersStay s (put at new s)
put-MembersStay s at old new e same_id same_pool k m' e' = elim (Bool-cases (k == at)) [
  | inl hit ↦
      (old, ground arith, ground (arith, get-put k at new s), ground (arith, get-put k at new s))
  | inr miss ↦ (m', ground (arith, get-put k at new s), refl, refl)
]

module _ {X : Type 0} where
  pub stay-IsNumbered :
      (c c' : Chain X)
      → MembersStay c.members c'.members
      → PoolsGrow c.pools c'.pools
      → IsNumbered c
      → IsNumbered c'
  stay-IsNumbered c c' stay grow v = record {
    below = λ k m' at.
        let (m, e, same_id, same_pool) = stay k m' at in
        let (p, pe, lt) = v.below k m e in
        let (p', pe', le) = grow m.pool p pe in (p', rw (← same_pool) pe', omega arith);
    distinct = λ j k m' n' at at' pools ids.
        let (m, e, same_id, same_pool) = stay j m' at in
        let (n, e', same_id', same_pool') = stay k n' at' in
        v.distinct j k m n e e' (same_pool ∙ pools ∙ sym same_pool') (same_id ∙ ids ∙ sym same_id');
  }
