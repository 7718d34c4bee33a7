-- ===== src/Program/Admin/Inversion.antt =====
-- What held, and what was written, when a pool was launched or a solution submitted.
use ore_pool.Prelude.{
  ℕ, ◌+◌, ◌-◌, ◌<◌, ◌≡◌, ok, List, [], ◌∷◌, none, some, true, arith, Option-cases, inl, inr,
  replicate, map,
}
use ore_pool.Prelude.Words.{u64_mod, from_le_bytes}
use ore_pool.Prelude.Store.{get, put}
use ore_pool.Api.State.{Addresses, Pool, bytes, key, pool_seed}
use ore_pool.Api.Instruction.{LaunchArgs, SubmitArgs}
use ore_pool.Program.Runtime.{AccountInfo, Runtime, Chain, Instruction, Proof}
use ore_pool.Program.Admin.{launch_accounts, submit_accounts}

-- A pool as it is launched.
abbrev pub launched : ℕ → LaunchArgs → Proof → Pool
launched authority args proof = record {
  authority = authority;
  bump = from_le_bytes args.pool_bump;
  url = args.url;
  attestation = replicate 32 0;
  last_hash_at = proof.last_hash_at;
  reward = 0;
  total_submissions = 0;
  total_members = 0;
  last_total_members = 0;
}

pub record Launches {X : Type 0} (rt : Runtime X) (ids : Addresses) (c c' : Chain X)
    (signer_info pool_info proof_info : AccountInfo) (args : LaunchArgs) : Type 0 where
  pub proof : Proof
  pub opened : X
  pub signed : rt.is_signer signer_info ≡ true
  pub vacant : get pool_info.key c.pools ≡ none
  pub derived :
      rt.has_seeds pool_info
        (pool_seed ∷ key signer_info.key ∷ [])
        (from_le_bytes args.pool_bump)
        ids.pool_program
      ≡ true
  pub proof_at : rt.to_proof opened proof_info ≡ some proof
  pub written : c'.pools ≡ put pool_info.key (launched signer_info.key args proof) c.pools

-- The pool after a solution was mined: `before` is the proof account's state as it was checked and
-- `after` as it is read after the call.
abbrev pub submitted : Pool → SubmitArgs → Proof → Proof → Pool
submitted pool args before after = record pool {
  total_submissions = pool.total_submissions + 1;
  attestation = args.attestation;
  last_total_members = pool.total_members;
  reward = after.balance - before.balance;
  last_hash_at = after.last_hash_at;
}

pub record Submits {X : Type 0} (rt : Runtime X) (c c' : Chain X)
    (signer_info bus_info config_info pool_info proof_info : AccountInfo)
    (called optional_accounts : List AccountInfo) (args : SubmitArgs) : Type 0 where
  pub pool : Pool
  pub before : Proof
  pub mined : X
  pub signed : rt.is_signer signer_info ≡ true
  pub pool_at : get pool_info.key c.pools ≡ some pool
  pub by_operator : pool.authority ≡ signer_info.key
  pub proof_at : rt.to_proof c.outside proof_info ≡ some before
  pub own_proof : before.authority ≡ pool_info.key
  pub fits : pool.total_submissions + 1 < u64_mod
  pub called_ore :
      rt.invoke
        (Instruction.ore_mine signer_info.key pool_info.key bus_info.key args.digest args.nonce
          (map (λ (a : AccountInfo). a.key) optional_accounts))
        called
        []
        c.outside
      ≡ some mined
  pub written : c' ≡ record c {
    pools =
        put pool_info.key (submitted pool args before (rt.proof_memory mined proof_info)) c.pools;
    outside = mined;
  }

module _ {X : Type 0} (rt : Runtime X) (ids : Addresses) where
  pub launch_accounts-Launches :
      (c : Chain X) {c' : Chain X} (s mi p pr op tp ap sp sl : AccountInfo) (args : LaunchArgs)
      → launch_accounts rt ids c (s ∷ mi ∷ p ∷ pr ∷ op ∷ tp ∷ ap ∷ sp ∷ sl ∷ []) args ≡ ok c'
      → Launches rt ids c c' s p pr args
  unfolding launch_accounts
  launch_accounts-Launches c s mi p pr op tp ap sp sl args h =
      elim (Option-cases (
        rt.invoke (Instruction.ore_open p.key mi.key s.key) (p ∷ mi ∷ s ∷ pr ∷ sp ∷ sl ∷ [])
          (pool_seed ∷ key s.key ∷ bytes args.pool_bump ∷ []) c.outside)) [
            | inl e ↦ absurd (ground arith)
            | inr (opened, e) ↦ elim (Option-cases (rt.to_proof opened pr)) [
              | inl e' ↦ absurd (ground arith)
              | inr (proof, e') ↦ record {
                proof = proof;
                opened = opened;
                signed = ground arith;
                vacant = ground arith;
                derived = ground arith;
                proof_at = e';
                written = ground arith;
              }
            ]
          ]

  -- A submission that succeeds is signed by the pool's operator, with the pool's own proof account,
  -- calls the ore program's mining instruction once, and changes of the pool's account just the
  -- submission count, the attestation, the snapshot of the member count, the reward (how far the
  -- proof's balance rose) and the time of the last hash.
  pub submit_accounts-Submits :
      (c : Chain X) {c' : Chain X} (s b co p pr op sp is sl : AccountInfo) (rest : List AccountInfo)
      (args : SubmitArgs)
      → submit_accounts rt ids c (s ∷ b ∷ co ∷ p ∷ pr ∷ op ∷ sp ∷ is ∷ sl ∷ rest) args ≡ ok c'
      → Submits rt c c' s b co p pr (s ∷ b ∷ co ∷ pr ∷ is ∷ sl ∷ rest) rest args
  unfolding submit_accounts
  submit_accounts-Submits c s b co p pr op sp is sl rest args h =
      elim (Option-cases (get p.key c.pools)) [
        | inl e ↦ absurd (ground arith)
        | inr (pool, e) ↦ elim (Option-cases (rt.to_proof c.outside pr)) [
          | inl e' ↦ absurd (ground arith)
          | inr (before, e') ↦
              elim (Option-cases (
                rt.invoke
                  (Instruction.ore_mine s.key p.key b.key args.digest args.nonce
                    (map (λ (a : AccountInfo). a.key) rest))
                  (s ∷ b ∷ co ∷ pr ∷ is ∷ sl ∷ rest) [] c.outside)) [
                    | inl e₂ ↦ absurd (ground arith)
                    | inr (mined, e₂) ↦ record {
                      pool = pool;
                      before = before;
                      mined = mined;
                      signed = ground arith;
                      pool_at = e;
                      by_operator = ground arith;
                      proof_at = e';
                      own_proof = ground arith;
                      fits = ground arith;
                      called_ore = e₂;
                      written = ground arith;
                    }
                  ]
        ]
      ]
