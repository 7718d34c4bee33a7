-- ===== src/Program/Idempotence.antt =====
-- program/src/attribute.rs: repeated and reordered attributions of one member.
use ore_pool.Prelude.{
  ℕ, ◌+◌, ◌-◌, ◌≤◌, ◌<◌, ◌≡◌, refl, Result, ok, ◌>>=◌, List, [], ◌∷◌, some, true, arith, >>=-eq-ok,
}
use ore_pool.Prelude.Words.{from_le_bytes, u64_mod}
use ore_pool.Prelude.Store.{get, get-put, put-put}
use ore_pool.Api.State.{Addresses, Pool, Member}
use ore_pool.Api.Instruction.{read_amount}
use ore_pool.Program.Runtime.{ProgramError, AccountInfo, Runtime, Chain, set_member, parsed}
use ore_pool.Program.User.{attribute_accounts, process_attribute}
use ore_pool.Program.User.Attribution.{attributed, attribute_accounts-Attributes}

module _ {X : Type 0} (rt : Runtime X) (ids : Addresses) where
  -- The checks of an attribution suffice for it to succeed.
  pub attribute_accounts-eq-ok :
      (c : Chain X) (s p m : AccountInfo) (t : ℕ) (pool : Pool) (member : Member)
      → rt.is_signer s ≡ true
      → rt.is_mutable m ≡ true
      → get p.key c.pools ≡ some pool
      → pool.authority ≡ s.key
      → get m.key c.members ≡ some member
      → member.pool ≡ p.key
      → member.balance + (t - member.total_balance) < u64_mod
      → attribute_accounts rt ids c (s ∷ p ∷ m ∷ []) t ≡ ok (set_member c m (attributed member t))
  unfolding attribute_accounts
  attribute_accounts-eq-ok c s p m t pool member h₁ h₂ h₃ h₄ h₅ h₆ h₇ = ground arith

  attribute_accounts_twice :
      (c : Chain X) {c' : Chain X} (l : List AccountInfo) (t : ℕ)
      → attribute_accounts rt ids c l t ≡ ok c'
      → attribute_accounts rt ids c' l t ≡ ok c'
  unfolding attribute_accounts
  attribute_accounts_twice c (s ∷ p ∷ m ∷ []) t h =
      let r = attribute_accounts-Attributes rt ids c s p m t h in
      rw r.written (
        ground (
          arith,
          attribute_accounts-eq-ok (set_member c m (attributed r.member t)) s p m t r.pool
              (attributed r.member t) r.signed r.mutable r.pool_at r.by_operator,
          put-put m.key (attributed r.member t) (attributed r.member t) c.members,
          get-put m.key m.key (attributed r.member t) c.members,
          r.fits,
          r.of_pool,
        ))
  attribute_accounts_twice c _ t h = cc

  -- An attribution that succeeded can be sent again: it succeeds and changes nothing.
  pub process_attribute_idempotent :
      (c : Chain X) {c' : Chain X} (l : List AccountInfo) (d : List ℕ)
      → process_attribute rt ids c l d ≡ ok c'
      → process_attribute rt ids c' l d ≡ ok c'
  unfolding process_attribute
  process_attribute_idempotent c l d h =
      let (bytes, e, h') = >>=-eq-ok (parsed (read_amount d)) _ h in
      rw (e, process_attribute) (attribute_accounts_twice c l (from_le_bytes bytes) h')

  -- Attributions of one member, one after the other.
  unfoldable pub attribute_all :
      Chain X
      → (signer_info pool_info member_info : AccountInfo) → List ℕ
      → Result ProgramError (Chain X)
  attribute_all c s p m [] = ok c
  attribute_all c s p m (t ∷ ts) =
      attribute_accounts rt ids c (s ∷ p ∷ m ∷ []) t >>= λ c'. attribute_all c' s p m ts

-- How far a list of lifetime earnings climbs, each step down ignored.
abbrev pub climbed : ℕ → List ℕ → ℕ
climbed last [] = 0
climbed last (t ∷ ts) = (t - last) + climbed t ts

abbrev pub last_of : ℕ → List ℕ → ℕ
last_of last [] = last
last_of last (t ∷ ts) = last_of t ts

abbrev pub Ascending : ℕ → List ℕ → Type 0
Ascending last [] = Unit {0}
Ascending last (t ∷ ts) = (last ≤ t) × Ascending t ts

climbed-Ascending :
    (last : ℕ) (ts : List ℕ) → Ascending last ts → last + climbed last ts ≡ last_of last ts
climbed-Ascending last [] h = omega arith
climbed-Ascending last (t ∷ ts) h = omega (arith, climbed-Ascending t ts h.1)

module _ {X : Type 0} (rt : Runtime X) (ids : Addresses) where
  -- After any attributions the member has been credited every climb of its lifetime earnings.
  pub attribute_all-climbed :
      (c : Chain X) {c' : Chain X} (s p m : AccountInfo) (member : Member) (ts : List ℕ)
      → get m.key c.members ≡ some member
      → attribute_all rt ids c s p m ts ≡ ok c'
      → get m.key c'.members
        ≡ some (record member {
          balance = member.balance + climbed member.total_balance ts;
          total_balance = last_of member.total_balance ts;
        })
  unfolding attribute_all
  attribute_all-climbed c s p m member [] at h = ground arith
  attribute_all-climbed c s p m member (t ∷ ts) at h =
      let (c₁, e₁, h₁) = >>=-eq-ok (attribute_accounts rt ids c (s ∷ p ∷ m ∷ []) t) _ h in
      let r = attribute_accounts-Attributes rt ids c s p m t e₁ in
      let stored : get m.key c₁.members ≡ some (attributed member t) =
        ground
          (arith, r.written, r.member_at, get-put m.key m.key (attributed r.member t) c.members) in
      ground (arith, attribute_all-climbed c₁ s p m (attributed member t) ts stored h₁)

  -- Lifetime earnings that never fall are credited exactly once: the balance has grown by the
  -- last figure less the one before them, however many attributions there were.
  pub attribute_all-Ascending :
      (c : Chain X) {c' : Chain X} (s p m : AccountInfo) (member : Member) (ts : List ℕ)
      → get m.key c.members ≡ some member
      → Ascending member.total_balance ts
      → attribute_all rt ids c s p m ts ≡ ok c'
      → (after : Member) × (get m.key c'.members ≡ some after)
        × (after.total_balance ≡ last_of member.total_balance ts)
        × (after.balance + member.total_balance ≡ member.balance + after.total_balance)
  attribute_all-Ascending c s p m member ts at up h = (
    record member {
      balance = member.balance + climbed member.total_balance ts;
      total_balance = last_of member.total_balance ts;
    },
    attribute_all-climbed c s p m member ts at h,
    refl,
    omega (arith, climbed-Ascending member.total_balance ts up),
  )

  -- A newer attribution, then an older one, then the newer one again: the difference between the
  -- two is credited a second time.
  pub attribute_all_reordered :
      (c : Chain X) {c' : Chain X} (s p m : AccountInfo) (member : Member) (new old : ℕ)
      → get m.key c.members ≡ some member
      → member.total_balance ≤ new
      → old < new
      → attribute_all rt ids c s p m (new ∷ old ∷ new ∷ []) ≡ ok c'
      → (after : Member) × (get m.key c'.members ≡ some after)
        × (after.total_balance ≡ new)
        × (after.balance + member.total_balance ≡ member.balance + new + (new - old))
  attribute_all_reordered c s p m member new old at up down h = (
    record member {
      balance = member.balance + climbed member.total_balance (new ∷ old ∷ new ∷ []);
      total_balance = new;
    },
    attribute_all-climbed c s p m member (new ∷ old ∷ new ∷ []) at h,
    refl,
    omega arith,
  )
