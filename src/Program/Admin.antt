-- ===== src/Program/Admin.antt =====
-- program/src/launch.rs, open_stake.rs, commit.rs and submit.rs: what the operator sends.
pub mod Inversion
use ore_pool.Prelude.{
  ℕ, ◌-◌, Result, ok, err, ◌>>=◌, ◌>>◌, List, [], ◌∷◌, ◌==◌, map, replicate, if◌then◌else◌,
}
use ore_pool.Prelude.Words.{checked_add, saturating_sub, from_le_bytes}
use ore_pool.Prelude.Int.{pos}
use ore_pool.Api.State.{Addresses, Pool, Seed, bytes, key, pool_seed}
use ore_pool.Api.Instruction.{LaunchArgs, SubmitArgs, read_launch, read_submit}
use ore_pool.Program.Runtime.{
  ProgramError, not_enough_account_keys, panicked, AccountInfo, Runtime, Chain, Instruction, check,
  unwrap, loaded, parsed, is_empty, to_pool_mut, set_pool, invoke_signed, bump_seed, TokenAccount,
  Boost, BoostStake, Proof,
}

module _ {X : Type 0} (rt : Runtime X) (ids : Addresses) where
  unfoldable pub launch_accounts :
      Chain X → List AccountInfo → LaunchArgs → Result ProgramError (Chain X)
  launch_accounts c
        (signer_info ∷ miner_info ∷ pool_info ∷ proof_info ∷ ore_program ∷ token_program
          ∷ associated_token_program ∷ system_program ∷ slot_hashes_sysvar ∷ [])
        args =
      do
        let pool_bump = from_le_bytes args.pool_bump
        let seeds = pool_seed ∷ key signer_info.key ∷ bytes args.pool_bump ∷ []
        check (rt.is_signer signer_info)
        check (is_empty rt c pool_info)
        check (rt.is_writable pool_info)
        check (
            rt.has_seeds pool_info (pool_seed ∷ key signer_info.key ∷ []) pool_bump
              ids.pool_program)
        check (is_empty rt c proof_info)
        check (rt.is_writable proof_info)
        check (
            rt.has_seeds proof_info (ids.proof_seed ∷ key pool_info.key ∷ [])
              (from_le_bytes args.proof_bump) ids.ore_program)
        check (rt.is_program ore_program ids.ore_program)
        check (rt.is_program token_program ids.token_program)
        check (rt.is_program associated_token_program ids.associated_token_program)
        check (rt.is_program system_program ids.system_program)
        check (rt.is_sysvar slot_hashes_sysvar ids.slot_hashes)
        opened ←
            invoke_signed rt c (Instruction.ore_open pool_info.key miner_info.key signer_info.key)
              (pool_info ∷ miner_info ∷ signer_info ∷ proof_info ∷ system_program
                ∷ slot_hashes_sysvar ∷ [])
              seeds
        proof ← loaded (rt.to_proof opened.outside proof_info)
        created ←
            invoke_signed rt opened (Instruction.create_account pool_info.key seeds signer_info.key)
              (pool_info ∷ system_program ∷ signer_info ∷ []) seeds
        check (rt.is_mutable pool_info)
        ok (
            set_pool created pool_info (record {
              authority = signer_info.key;
              bump = pool_bump;
              url = args.url;
              attestation = replicate 32 0;
              last_hash_at = proof.last_hash_at;
              reward = 0;
              total_submissions = 0;
              total_members = 0;
              last_total_members = 0;
            }))
  launch_accounts c _ args = err not_enough_account_keys

  unfoldable pub process_launch :
      Chain X → List AccountInfo → List ℕ → Result ProgramError (Chain X)
  unfolding launch_accounts
  process_launch c accounts data_bytes = do
    args ← parsed (read_launch data_bytes)
    launch_accounts c accounts args

  unfoldable pub process_open_stake :
      Chain X → List AccountInfo → List ℕ → Result ProgramError (Chain X)
  process_open_stake c
        (signer_info ∷ boost_info ∷ mint_info ∷ pool_info ∷ pool_tokens_info ∷ stake_info
          ∷ system_program ∷ token_program ∷ associated_token_program ∷ ore_boost_program ∷ [])
        data_bytes =
      do
        check (rt.is_signer signer_info)
        boost ← loaded (rt.to_boost c.outside boost_info)
        check (boost.mint == mint_info.key)
        check (rt.to_mint c.outside mint_info)
        pool ← to_pool_mut rt c pool_info
        check (pool.authority == signer_info.key)
        check (rt.is_writable pool_tokens_info)
        check (is_empty rt c stake_info)
        check (rt.is_writable stake_info)
        check (rt.is_program system_program ids.system_program)
        check (rt.is_program token_program ids.token_program)
        check (rt.is_program associated_token_program ids.associated_token_program)
        check (rt.is_program ore_boost_program ids.boost_program)
        opened ←
            invoke_signed rt c (Instruction.boost_open pool_info.key signer_info.key mint_info.key)
              (pool_info ∷ signer_info ∷ boost_info ∷ mint_info ∷ stake_info ∷ system_program ∷ [])
              (pool_seed ∷ key signer_info.key ∷ bump_seed pool.bump ∷ [])
        let create =
            invoke_signed rt opened
              (Instruction.create_associated_token_account signer_info.key pool_info.key
                pool_tokens_info.key mint_info.key)
              (signer_info ∷ pool_info ∷ pool_tokens_info ∷ mint_info ∷ system_program
                ∷ token_program ∷ associated_token_program ∷ [])
              []
        let checked =
            loaded (
              rt.to_associated_token_account opened.outside pool_tokens_info pool_info.key
                mint_info.key)
            >>= λ t. ok opened
        if is_empty rt opened pool_tokens_info then create else checked
  process_open_stake c _ data_bytes = err not_enough_account_keys

  unfoldable pub process_commit :
      Chain X → List AccountInfo → List ℕ → Result ProgramError (Chain X)
  process_commit c
        (signer_info ∷ boost_info ∷ boost_tokens_info ∷ mint_info ∷ pool_info ∷ pool_tokens_info
          ∷ stake_info ∷ spl_token_program ∷ ore_boost_program ∷ [])
        data_bytes =
      do
        check (rt.is_signer signer_info)
        check (rt.is_writable boost_info)
        boost ← loaded (rt.to_boost c.outside boost_info)
        check (boost.mint == mint_info.key)
        check (rt.is_writable boost_tokens_info)
        boost_tokens ← loaded (
            rt.to_associated_token_account c.outside boost_tokens_info boost_info.key mint_info.key)
        check (rt.to_mint c.outside mint_info)
        pool ← to_pool_mut rt c pool_info
        check (pool.authority == signer_info.key)
        check (rt.is_writable pool_tokens_info)
        pool_tokens ←
            loaded (
              rt.to_associated_token_account c.outside pool_tokens_info pool_info.key mint_info.key)
        check (rt.is_program spl_token_program ids.token_program)
        check (rt.is_program ore_boost_program ids.boost_program)
        invoke_signed rt c
            (Instruction.boost_deposit pool_info.key mint_info.key pool_tokens.amount)
            (pool_info ∷ boost_info ∷ boost_tokens_info ∷ mint_info ∷ pool_tokens_info ∷ stake_info
              ∷ spl_token_program ∷ [])
            (pool_seed ∷ key signer_info.key ∷ bump_seed pool.bump ∷ [])
  process_commit c _ data_bytes = err not_enough_account_keys

  -- The nine required accounts are split off first; a shorter slice panics there.
  unfoldable pub submit_accounts :
      Chain X → List AccountInfo → SubmitArgs → Result ProgramError (Chain X)
  submit_accounts c
        (signer_info ∷ bus_info ∷ config_info ∷ pool_info ∷ proof_info ∷ ore_program
          ∷ system_program ∷ instructions_sysvar ∷ slot_hashes_sysvar ∷ optional_accounts)
        args =
      do
        check (rt.is_signer signer_info)
        pool ← to_pool_mut rt c pool_info
        check (pool.authority == signer_info.key)
        check (rt.is_writable proof_info)
        proof ← loaded (rt.to_proof c.outside proof_info)
        check (proof.authority == pool_info.key)
        check (rt.is_program ore_program ids.ore_program)
        check (rt.is_program system_program ids.system_program)
        check (rt.is_sysvar instructions_sysvar ids.instructions_sysvar)
        check (rt.is_sysvar slot_hashes_sysvar ids.slot_hashes)
        total_submissions ← unwrap (checked_add pool.total_submissions 1)
        let previous_balance = proof.balance
        mined ←
            invoke_signed rt c
              (Instruction.ore_mine signer_info.key pool_info.key bus_info.key args.digest
                args.nonce (map (λ (a : AccountInfo). a.key) optional_accounts))
              (signer_info ∷ bus_info ∷ config_info ∷ proof_info ∷ instructions_sysvar
                ∷ slot_hashes_sysvar ∷ optional_accounts)
              []
        let after = rt.proof_memory mined.outside proof_info
        ok (
            set_pool mined pool_info (record pool {
              total_submissions = total_submissions;
              attestation = args.attestation;
              last_total_members = pool.total_members;
              reward = saturating_sub after.balance previous_balance;
              last_hash_at = after.last_hash_at;
            }))
  submit_accounts c _ args = err panicked

  unfoldable pub process_submit :
      Chain X → List AccountInfo → List ℕ → Result ProgramError (Chain X)
  unfolding submit_accounts
  process_submit c accounts data_bytes = do
    args ← parsed (read_submit data_bytes)
    submit_accounts c accounts args
