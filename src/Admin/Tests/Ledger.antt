-- ===== src/Admin/Tests/Ledger.antt =====
-- A node that is the chain itself: it shows the accounts as lists of their numbers, and a transaction
-- lands at once if it can.
use ore_pool.Prelude.{
  zero, suc, ℕ, ◌≡◌, refl, List, [], ◌∷◌, ◌++◌, Option, none, some, ok, err, length, take, drop,
  take-append, drop-append, Option-cases, Result-cases, inl, inr, arith,
}
use ore_pool.Prelude.Int.{ℤ, pos, negsuc}
use ore_pool.Prelude.Store.{get}
use ore_pool.Api.Sample.{ids}
use ore_pool.Api.State.{Pubkey, Pool, Member}
use ore_pool.Api.Sdk.{BuiltInstruction}
use ore_pool.Program.Runtime.{Chain}
use ore_pool.Program.Built.{deliver}
use ore_pool.Program.Sample.{rt}
use ore_pool.Admin.Node.{Node}
use ore_pool.Admin.Chain.{Follows, Ran}

abbrev time_bytes : ℤ → ℕ × ℕ
time_bytes (pos n) = (0, n)
time_bytes (negsuc n) = (1, n)

abbrev time_of : ℕ → ℕ → ℤ
time_of zero n = pos n
time_of (suc k) n = negsuc n

abbrev pool_bytes : Pool → List ℕ
pool_bytes p =
    0
      ∷ p.authority
      ∷ p.bump
      ∷ (time_bytes p.last_hash_at).0
      ∷ (time_bytes p.last_hash_at).1
      ∷ p.reward
      ∷ p.total_submissions
      ∷ p.total_members
      ∷ p.last_total_members
      ∷ length p.url
      ∷ p.url
    ++ p.attestation

abbrev pool_of_bytes : List ℕ → Option Pool
pool_of_bytes (zero ∷ a ∷ b ∷ k ∷ t ∷ r ∷ s ∷ m ∷ l ∷ n ∷ rest) = some (record {
  authority = a;
  bump = b;
  url = take n rest;
  attestation = drop n rest;
  last_hash_at = time_of k t;
  reward = r;
  total_submissions = s;
  total_members = m;
  last_total_members = l;
})
pool_of_bytes _ = none

abbrev member_bytes : Member → List ℕ
member_bytes m = 1 ∷ m.id ∷ m.pool ∷ m.authority ∷ m.balance ∷ m.total_balance ∷ []

abbrev member_of_bytes : List ℕ → Option Member
member_of_bytes (suc x ∷ i ∷ p ∷ a ∷ b ∷ t ∷ []) =
    some (record { id = i; pool = p; authority = a; balance = b; total_balance = t })
member_of_bytes _ = none

time_back : (z : ℤ) → time_of (time_bytes z).0 (time_bytes z).1 ≡ z
time_back (pos n) = refl
time_back (negsuc n) = refl

pool_back : (p : Pool) → pool_of_bytes (pool_bytes p) ≡ some p
pool_back p = ground (
  arith,
  time_back p.last_hash_at,
  take-append p.url p.attestation,
  drop-append p.url p.attestation,
)

abbrev shown : Chain (ℕ × ℕ) → Pubkey → Option (List ℕ)
shown c a = elim (get a c.pools) [
  | some p ↦ some (pool_bytes p)
  | none ↦ elim (get a c.members) [ none ↦ none | some m ↦ some (member_bytes m) ]
]

abbrev landed : BuiltInstruction → Chain (ℕ × ℕ) → Option ℕ × Chain (ℕ × ℕ)
landed ix c = elim (deliver rt ids c ix) [ ok c' ↦ (some 7, c') | err e ↦ (none, c) ]

abbrev pub ledger : Node (Chain (ℕ × ℕ))
ledger = record {
  fetch = λ a c. (shown c a, c);
  get_latest_blockhash = λ c. (some 3, c);
  send_transaction = λ payer ix hash c. landed ix c;
  sleep = λ seconds c. c;
  pool_from_bytes = pool_of_bytes;
  member_from_bytes = member_of_bytes;
  proof_from_bytes = λ bytes. some bytes;
}

ledger_lands : (ix : BuiltInstruction) (c : Chain (ℕ × ℕ)) → Ran rt ids 9 ix c (landed ix c).1
ledger_lands ix c = elim (Result-cases (deliver rt ids c ix)) [
  | inl (c', e) ↦
      let same : (landed ix c).1 ≡ c' = ground (arith, e) in
      rw same (
        inr
          (record { before = c; after = c'; until = (refl, refl); ran = e; since = (refl, refl) }))
  | inr (x, e) ↦ let same : (landed ix c).1 ≡ c = ground (arith, e) in rw same (inl (refl, refl))
]

pub follows : Follows rt ids ledger 9
follows = record {
  chain = λ c. c;
  fetch_agrees = λ a c. (refl, refl);
  hash_agrees = λ c. (refl, refl);
  shows_pool = λ a c bytes p e e'. elim (Option-cases (get a c.pools)) [
    | inr (q, at) ↦ ground (arith, at, e, e', pool_back q)
    | inl none_there ↦ absurd (ground (arith, none_there, e, e'))
  ];
  shows_member = λ a c bytes m e e'. elim (Option-cases (get a c.pools)) [
    | inr (q, at) ↦ absurd (ground (arith, at, e, e'))
    | inl none_there ↦ elim (Option-cases (get a c.members)) [
      | inr (n, at) ↦ ground (arith, none_there, at, e, e')
      | inl none_either ↦ absurd (ground (arith, none_there, none_either, e))
    ]
  ];
  lands = λ payer ix hash c. ledger_lands ix c;
}
