-- ===== src/Program/Stakes.antt =====
-- program/src/stake.rs and unstake.rs: deposits into the pool's token account, and withdrawals.
pub mod Inversion
pub mod Custody
pub mod Solvency
pub mod Drift
pub mod Quiet
pub mod History
use ore_pool.Prelude.{
  ℕ, ◌-◌, Result, ok, err, ◌>>=◌, ◌>>◌, List, [], ◌∷◌, ◌==◌, min, ltb, if◌then◌else◌,
}
use ore_pool.Prelude.Words.{checked_add, checked_sub, from_le_bytes}
use ore_pool.Api.State.{Addresses, Pubkey, Pool, Member, Share, Seed, bytes, key, pool_seed}
use ore_pool.Api.Instruction.{read_amount}
use ore_pool.Program.Runtime.{
  ProgramError, not_enough_account_keys, AccountInfo, Runtime, Chain, Instruction, check, unwrap,
  loaded, parsed, to_pool, to_member, to_share_mut, set_share, invoke_signed, bump_seed,
  TokenAccount, Boost, BoostStake,
}

-- `UnstakeEvent`, as `process_unstake` logs it.
pub record UnstakeEvent : Type 0 where
  pub authority : Pubkey
  pub share : Pubkey
  pub mint : Pubkey
  pub balance : ℕ

module _ {X : Type 0} (rt : Runtime X) (ids : Addresses) where
  unfoldable pub stake_accounts : Chain X → List AccountInfo → ℕ → Result ProgramError (Chain X)
  stake_accounts c
        (signer_info ∷ mint_info ∷ member_info ∷ pool_info ∷ pool_tokens_info ∷ sender_tokens_info
          ∷ share_info ∷ token_program ∷ [])
        amount =
      do
        check (rt.is_signer signer_info)
        check (rt.to_mint c.outside mint_info)
        member ← to_member c member_info
        check (member.authority == signer_info.key)
        check (member.pool == pool_info.key)
        pool ← to_pool c pool_info
        check (rt.is_writable pool_tokens_info)
        pool_tokens ←
            loaded (
              rt.to_associated_token_account c.outside pool_tokens_info pool_info.key mint_info.key)
        check (rt.is_writable sender_tokens_info)
        t ← loaded (rt.to_token_account c.outside sender_tokens_info)
        check (t.owner == signer_info.key)
        check (t.mint == mint_info.key)
        share ← to_share_mut rt c share_info
        check (share.authority == signer_info.key)
        check (share.mint == mint_info.key)
        check (rt.is_program token_program ids.token_program)
        balance ← unwrap (checked_add share.balance amount)
        invoke_signed rt (set_share c share_info (record share { balance = balance }))
            (Instruction.token_transfer signer_info.key sender_tokens_info.key pool_tokens_info.key
              amount)
            (signer_info ∷ sender_tokens_info ∷ pool_tokens_info ∷ token_program ∷ []) []
  stake_accounts c _ amount = err not_enough_account_keys

  unfoldable pub process_stake : Chain X → List AccountInfo → List ℕ → Result ProgramError (Chain X)
  unfolding stake_accounts
  process_stake c accounts data_bytes = do
    amount ← parsed (read_amount data_bytes)
    stake_accounts c accounts (from_le_bytes amount)

  -- The two transfers of `process_unstake`: what the pending tokens do not cover is withdrawn from
  -- the boost first.
  unfoldable pub pay_out :
      Chain X
      → (pool : Pool) (pool_info pool_tokens_info recipient_tokens_info : AccountInfo)
        (boost_info boost_tokens_info mint_info stake_info token_program : AccountInfo)
        (pending amount : ℕ)
      → Result ProgramError (Chain X)
  pay_out c pool pool_info pool_tokens_info recipient_tokens_info boost_info boost_tokens_info
        mint_info stake_info token_program pending amount =
      do
        let seeds = pool_seed ∷ key pool.authority ∷ bump_seed pool.bump ∷ []
        let pending_amount = min pending amount
        withdraw_amount ← unwrap (checked_sub amount pending_amount)
        withdrawn ←
            if ltb 0 withdraw_amount
            then invoke_signed rt c
                (Instruction.boost_withdraw pool_info.key mint_info.key withdraw_amount)
                (pool_info ∷ pool_tokens_info ∷ boost_info ∷ boost_tokens_info ∷ mint_info
                  ∷ stake_info ∷ token_program ∷ [])
                seeds
            else ok c
        invoke_signed rt withdrawn
            (Instruction.token_transfer pool_info.key pool_tokens_info.key recipient_tokens_info.key
              amount)
            (pool_info ∷ pool_tokens_info ∷ recipient_tokens_info ∷ token_program ∷ []) seeds

  unfoldable pub unstake_accounts :
      Chain X → List AccountInfo → ℕ → Result ProgramError (Chain X × UnstakeEvent)
  unstake_accounts c
        (signer_info ∷ boost_info ∷ boost_tokens_info ∷ mint_info ∷ member_info ∷ pool_info
          ∷ pool_tokens_info ∷ recipient_tokens_info ∷ share_info ∷ stake_info ∷ token_program
          ∷ ore_boost_program ∷ [])
        amount =
      do
        check (rt.is_signer signer_info)
        check (rt.is_writable boost_info)
        boost ← loaded (rt.to_boost c.outside boost_info)
        check (boost.mint == mint_info.key)
        check (rt.is_writable boost_tokens_info)
        boost_tokens ← loaded (
            rt.to_associated_token_account c.outside boost_tokens_info boost_info.key mint_info.key)
        check (rt.to_mint c.outside mint_info)
        member ← to_member c member_info
        check (member.authority == signer_info.key)
        check (member.pool == pool_info.key)
        pool ← to_pool c pool_info
        check (rt.is_writable pool_tokens_info)
        pool_tokens ←
            loaded (
              rt.to_associated_token_account c.outside pool_tokens_info pool_info.key mint_info.key)
        check (rt.is_writable recipient_tokens_info)
        t ← loaded (rt.to_token_account c.outside recipient_tokens_info)
        check (t.mint == mint_info.key)
        check (rt.is_writable stake_info)
        s ← loaded (rt.to_stake c.outside stake_info)
        check (s.authority == pool_info.key)
        check (s.boost == boost_info.key)
        share ← to_share_mut rt c share_info
        check (share.authority == signer_info.key)
        check (share.pool == pool_info.key)
        check (share.mint == mint_info.key)
        check (rt.is_program token_program ids.token_program)
        check (rt.is_program ore_boost_program ids.boost_program)
        balance ← unwrap (checked_sub share.balance amount)
        paid ←
            pay_out (set_share c share_info (record share { balance = balance })) pool pool_info
              pool_tokens_info recipient_tokens_info boost_info boost_tokens_info mint_info
              stake_info token_program pool_tokens.amount amount
        ok (
          paid,
          record {
            authority = signer_info.key;
            share = share_info.key;
            mint = mint_info.key;
            balance = balance;
          },
        )
  unstake_accounts c _ amount = err not_enough_account_keys

  unfoldable pub process_unstake :
      Chain X → List AccountInfo → List ℕ → Result ProgramError (Chain X × UnstakeEvent)
  unfolding unstake_accounts
  process_unstake c accounts data_bytes = do
    amount ← parsed (read_amount data_bytes)
    unstake_accounts c accounts (from_le_bytes amount)
