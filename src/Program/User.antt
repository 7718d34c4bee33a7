-- ===== src/Program/User.antt =====
-- program/src/join.rs, claim.rs and open_share.rs, and attribute.rs: the members' balances.
pub mod Attribution
pub mod Claims
pub mod Joins
use ore_pool.Prelude.{ℕ, ◌+◌, Result, ok, err, ◌>>=◌, ◌>>◌, List, [], ◌∷◌, ◌==◌}
use ore_pool.Prelude.Words.{checked_add, checked_sub, saturating_sub, from_le_bytes}
use ore_pool.Api.State.{
  Addresses, Pool, Member, Share, Seed, bytes, key, member_seed, pool_seed, share_seed,
}
use ore_pool.Api.Instruction.{ClaimArgs, read_amount, read_bump, read_claim}
use ore_pool.Program.Runtime.{
  ProgramError, not_enough_account_keys, AccountInfo, Runtime, Chain, Instruction, check, unwrap,
  loaded, parsed, is_empty, to_pool, to_pool_mut, to_member_mut, to_share_mut, set_pool, set_member,
  set_share, invoke_signed, TokenAccount, Boost, BoostStake,
}

module _ {X : Type 0} (rt : Runtime X) (ids : Addresses) where
  unfoldable pub attribute_accounts : Chain X → List AccountInfo → ℕ → Result ProgramError (Chain X)
  attribute_accounts c (signer_info ∷ pool_info ∷ member_info ∷ []) total_balance = do
    check (rt.is_signer signer_info)
    pool ← to_pool c pool_info
    check (pool.authority == signer_info.key)
    member ← to_member_mut rt c member_info
    check (member.pool == pool_info.key)
    let balance_change = saturating_sub total_balance member.total_balance
    balance ← unwrap (checked_add member.balance balance_change)
    ok (
        set_member c member_info
          (record member { balance = balance; total_balance = total_balance }))
  attribute_accounts c _ total_balance = err not_enough_account_keys

  unfoldable pub process_attribute :
      Chain X → List AccountInfo → List ℕ → Result ProgramError (Chain X)
  unfolding attribute_accounts
  process_attribute c accounts data_bytes = do
    total_balance ← parsed (read_amount data_bytes)
    attribute_accounts c accounts (from_le_bytes total_balance)

  unfoldable pub claim_accounts :
      Chain X → List AccountInfo → ClaimArgs → Result ProgramError (Chain X)
  claim_accounts c
        (signer_info ∷ beneficiary_info ∷ member_info ∷ pool_info ∷ proof_info ∷ treasury_info
          ∷ treasury_tokens_info ∷ ore_program ∷ token_program ∷ [])
        args =
      do
        let amount = from_le_bytes args.amount
        check (rt.is_signer signer_info)
        check (rt.is_writable beneficiary_info)
        t ← loaded (rt.to_token_account c.outside beneficiary_info)
        check (t.mint == ids.ore_mint)
        member ← to_member_mut rt c member_info
        check (member.authority == signer_info.key)
        check (member.pool == pool_info.key)
        pool ← to_pool c pool_info
        check (rt.is_program ore_program ids.ore_program)
        check (rt.is_program token_program ids.token_program)
        balance ← unwrap (checked_sub member.balance amount)
        invoke_signed rt (set_member c member_info (record member { balance = balance }))
            (Instruction.ore_claim pool_info.key beneficiary_info.key amount)
            (pool_info ∷ beneficiary_info ∷ proof_info ∷ treasury_info ∷ treasury_tokens_info
              ∷ token_program ∷ [])
            (pool_seed ∷ key pool.authority ∷ bytes args.pool_bump ∷ [])
  claim_accounts c _ args = err not_enough_account_keys

  unfoldable pub process_claim : Chain X → List AccountInfo → List ℕ → Result ProgramError (Chain X)
  unfolding claim_accounts
  process_claim c accounts data_bytes = do
    args ← parsed (read_claim data_bytes)
    claim_accounts c accounts args

  unfoldable pub join_accounts : Chain X → List AccountInfo → List ℕ → Result ProgramError (Chain X)
  join_accounts c
        (signer_info ∷ member_authority_info ∷ member_info ∷ pool_info ∷ system_program ∷ []) bump =
      do
        let seeds = member_seed ∷ key member_authority_info.key ∷ key pool_info.key ∷ []
        let signed =
            member_seed ∷ key member_authority_info.key ∷ key pool_info.key ∷ bytes bump ∷ []
        check (rt.is_signer signer_info)
        check (is_empty rt c member_info)
        check (rt.is_writable member_info)
        check (rt.has_seeds member_info seeds (from_le_bytes bump) ids.pool_program)
        pool ← to_pool_mut rt c pool_info
        check (rt.is_program system_program ids.system_program)
        created ←
            invoke_signed rt c (Instruction.create_account member_info.key signed signer_info.key)
              (member_info ∷ system_program ∷ signer_info ∷ []) signed
        check (rt.is_mutable member_info)
        let joined = set_member created member_info (record {
          id = pool.total_members;
          pool = pool_info.key;
          authority = member_authority_info.key;
          balance = 0;
          total_balance = 0;
        })
        total_members ← unwrap (checked_add pool.total_members 1)
        ok (set_pool joined pool_info (record pool { total_members = total_members }))
  join_accounts c _ bump = err not_enough_account_keys

  unfoldable pub process_join : Chain X → List AccountInfo → List ℕ → Result ProgramError (Chain X)
  unfolding join_accounts
  process_join c accounts data_bytes = do
    bump ← parsed (read_bump data_bytes)
    join_accounts c accounts bump

  unfoldable pub open_share_accounts :
      Chain X → List AccountInfo → List ℕ → Result ProgramError (Chain X)
  open_share_accounts c
        (signer_info ∷ boost_info ∷ mint_info ∷ pool_info ∷ share_info ∷ stake_info ∷ system_program
          ∷ [])
        bump =
      do
        let seeds = share_seed ∷ key signer_info.key ∷ key pool_info.key ∷ key mint_info.key ∷ []
        let signed =
            share_seed
            ∷ key signer_info.key
            ∷ key pool_info.key
            ∷ key mint_info.key
            ∷ bytes bump
            ∷ []
        check (rt.is_signer signer_info)
        boost ← loaded (rt.to_boost c.outside boost_info)
        check (boost.mint == mint_info.key)
        check (rt.to_mint c.outside mint_info)
        pool ← to_pool c pool_info
        check (is_empty rt c share_info)
        check (rt.is_writable share_info)
        check (rt.has_seeds share_info seeds (from_le_bytes bump) ids.pool_program)
        stake ← loaded (rt.to_stake c.outside stake_info)
        check (stake.authority == pool_info.key)
        check (stake.boost == boost_info.key)
        check (rt.is_program system_program ids.system_program)
        created ←
            invoke_signed rt c (Instruction.create_account share_info.key signed signer_info.key)
              (share_info ∷ system_program ∷ signer_info ∷ []) signed
        check (rt.is_mutable share_info)
        ok (
            set_share created share_info (record {
              authority = signer_info.key;
              balance = 0;
              mint = mint_info.key;
              pool = pool_info.key;
            }))
  open_share_accounts c _ bump = err not_enough_account_keys

  unfoldable pub process_open_share :
      Chain X → List AccountInfo → List ℕ → Result ProgramError (Chain X)
  unfolding open_share_accounts
  process_open_share c accounts data_bytes = do
    bump ← parsed (read_bump data_bytes)
    open_share_accounts c accounts bump
