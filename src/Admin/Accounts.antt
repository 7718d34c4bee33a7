-- ===== src/Admin/Accounts.antt =====
-- program/src/launch.rs and join.rs on the instructions that admin/src/init.rs sends.
use ore_pool.Prelude.{
  ℕ, ◌≡◌, refl, List, [], ◌∷◌, ◌++◌, ◌∙◌, ap, sym, Option, none, some, ok, Result-cases, arith, inl,
  inr, >>=-eq-ok, true, false, ◌+◌, ◌==◌, if◌then◌else◌,
}
use mathlib.Core.Path.{subst}
use ore_pool.Prelude.Words.{to_le_bytes}
use ore_pool.Prelude.Store.{get, get-put}
use ore_pool.Api.State.{Addresses, Pubkey, Pool, Member, pool_pda, pool_proof_pda, member_pda}
use ore_pool.Api.Instruction.{LaunchArgs, read_launch, read_bump}
use ore_pool.Api.Sdk.{BuiltInstruction, build_join}
use ore_pool.Api.Sdk.Operations.{build_launch, url_to_bytes}
use ore_pool.Program.Runtime.{AccountInfo, Runtime, Chain, parsed}
use ore_pool.Program.Dispatch.{run_instruction}
use ore_pool.Program.Built.{deliver}
use ore_pool.Program.User.{process_join}
use ore_pool.Program.User.Joins.{joined, join_accounts-Joins}
use ore_pool.Program.Admin.{process_launch}
use ore_pool.Program.Admin.Inversion.{launched, launch_accounts-Launches}
use ore_pool.Program.Frames.{process_launch-frame}

parsed-some : {A : Type 0} (o : Option A) {x : A} → parsed o ≡ ok x → o ≡ some x
parsed-some none h = absurd (ground (arith, h))
parsed-some (some y) h = ground (arith, h)

-- The url is what stands behind the two bumps.
launch_url :
    (b b' : ℕ) (url : List ℕ) {args : LaunchArgs}
    → read_launch (to_le_bytes 1 b ++ to_le_bytes 1 b' ++ url) ≡ some args
    → args.url ≡ url
unfolding read_launch to_le_bytes
launch_url b b' url h = ground (arith, h)

module _ {X : Type 0} (rt : Runtime X) (ids : Addresses) (k : Pubkey) where
  abbrev pub own_pool : Pubkey
  own_pool = (pool_pda ids k).0

  abbrev pub own_member : Pubkey
  own_member = (member_pda ids k own_pool).0

  -- The accounts of the two instructions, as the runtime passes them.
  abbrev signs : AccountInfo
  signs = record { key = k; is_signer = true; is_writable = true }

  abbrev writes : Pubkey → AccountInfo
  writes a = record { key = a; is_signer = false; is_writable = true }

  abbrev reads : Pubkey → AccountInfo
  reads a = record { key = a; is_signer = false; is_writable = false }

  -- A launch that ran puts a pool of the operator under its address, and changes no other account.
  pub launch-pools :
      (c : Chain X) {c' : Chain X} (url : List ℕ) (ix : BuiltInstruction)
      → build_launch ids k k url ≡ ok ix
      → deliver rt ids c ix ≡ ok c'
      → (p : Pool) × (p.authority ≡ k)
        × (url_to_bytes url ≡ ok p.url)
        × ((a : Pubkey) → get a c'.pools ≡ (if a == own_pool then some p else get a c.pools))
        × (c'.members ≡ c.members)
  unfolding build_launch run_instruction process_launch
  launch-pools c {c'} url ix built h = elim (Result-cases (url_to_bytes url)) [
    | inr (x, e) ↦ absurd (ground (arith, e, built))
    | inl (padded, e) ↦
        let proof = (pool_proof_pda ids own_pool).0 in
        let infos =
          signs
          ∷ reads k
          ∷ writes own_pool
          ∷ writes proof
          ∷ reads ids.ore_program
          ∷ reads ids.token_program
          ∷ reads ids.associated_token_program
          ∷ reads ids.system_program
          ∷ reads ids.slot_hashes
          ∷ [] in
        let ran : process_launch rt ids c infos ix.payload ≡ ok c' = ground (arith, e, built, h) in
        let (args, read, ran') = >>=-eq-ok (parsed (read_launch ix.payload)) _ ran in
        let bump = (pool_pda ids k).1 in
        let payload_is : ix.payload
            ≡ to_le_bytes 1 bump ++ to_le_bytes 1 (pool_proof_pda ids own_pool).1 ++ padded =
          ground (arith, e, built) in
        let url_is : args.url ≡ padded = launch_url bump (pool_proof_pda ids own_pool).1 padded (
          subst (λ d. read_launch d ≡ some args) payload_is
            (parsed-some (read_launch ix.payload) read)) in
        let w =
          launch_accounts-Launches rt ids c signs (reads k) (writes own_pool) (writes proof)
            (reads ids.ore_program) (reads ids.token_program) (reads ids.associated_token_program)
            (reads ids.system_program) (reads ids.slot_hashes) args ran' in
        (
          launched k args w.proof,
          refl,
          e ∙ ap ok (sym url_is),
          (λ a. ground (arith, w.written, get-put a own_pool (launched k args w.proof) c.pools)),
          (process_launch-frame rt ids c infos ix.payload ran).0,
        )
  ]

  -- A join that ran makes a member of the operator with no earnings, and counts it.
  pub join-members :
      (c : Chain X) {c' : Chain X}
      → deliver rt ids c (build_join ids k own_pool k) ≡ ok c'
      → (p : Pool) × (m : Member) × (get own_pool c.pools ≡ some p)
        × (get own_pool c'.pools ≡ some (record p { total_members = p.total_members + 1 }))
        × (get own_member c'.members ≡ some m)
        × (m ≡ joined p own_pool k)
  unfolding build_join run_instruction process_join
  join-members c {c'} h =
      let infos =
        signs ∷ reads k ∷ writes own_member ∷ writes own_pool ∷ reads ids.system_program ∷ [] in
      let payload = (build_join ids k own_pool k).payload in
      let ran : process_join rt ids c infos payload ≡ ok c' = ground (arith, h) in
      let (bump, _, ran') = >>=-eq-ok (parsed (read_bump payload)) _ ran in
      let w =
        join_accounts-Joins rt ids c signs (reads k) (writes own_member) (writes own_pool)
          (reads ids.system_program) bump ran' in
      (
        w.pool,
        joined w.pool own_pool k,
        w.pool_at,
        ground (
          arith,
          w.pools_written,
          get-put own_pool own_pool (record (w.pool) { total_members = w.pool.total_members + 1 })
              c.pools,
        ),
        ground (
          arith,
          w.members_written,
          get-put own_member own_member (joined w.pool own_pool k) c.members,
        ),
        refl,
      )
