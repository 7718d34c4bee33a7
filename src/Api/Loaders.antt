-- ===== src/Api/Loaders.antt =====
-- api/src/loaders.rs: the checks of accounts. What is read of an account's bytes is given.
pub mod Conditions
use ore_pool.Prelude.{
  ℕ, List, [], ◌∷◌, Option, none, some, Bool, true, false, Result, ok, err, ◌>>=◌, ◌>>◌, guard,
  ok_or, not, ◌&&◌, ◌==◌,
}
use ore_pool.Api.State.{Addresses, Pubkey, Pool, Member, Share, discriminator, AccountDiscriminator}

-- The errors of `ProgramError` that the loaders return.
pub data LoadError : Type 0 where
  invalid_account_owner uninitialized_account invalid_account_data : LoadError

-- An account as a loader sees it.
pub record LoadedInfo : Type 0 where
  pub owner : Pubkey
  pub payload : List ℕ
  pub is_writable : Bool

-- steel's `try_from_bytes` of the three account types; a failure is an error of its own.
pub record Decoders : Type 0 where
  pub member_from_bytes : List ℕ → Result LoadError Member
  pub pool_from_bytes : List ℕ → Result LoadError Pool
  pub share_from_bytes : List ℕ → Result LoadError Share

abbrev pub data_is_empty : LoadedInfo → Bool
data_is_empty info = elim info.payload [ [] ↦ true | b ∷ bs ↦ false ]

-- The first byte of data that is not empty.
abbrev pub first_byte : LoadedInfo → ℕ
first_byte info = elim info.payload [ [] ↦ 0 | b ∷ bs ↦ b ]

module _ (ids : Addresses) (decoders : Decoders) where
  unfoldable pub load_member :
      LoadedInfo → (authority pool : Pubkey) (is_writable : Bool) → Result LoadError (Unit {0})
  load_member info authority pool is_writable = do
    guard (info.owner == ids.pool_program) invalid_account_owner
    guard (not (data_is_empty info)) uninitialized_account
    member ← decoders.member_from_bytes info.payload
    guard (member.authority == authority) invalid_account_data
    guard (member.pool == pool) invalid_account_data
    guard (not (is_writable && not info.is_writable)) invalid_account_data

  unfoldable pub load_any_member :
      LoadedInfo → (pool : Pubkey) (is_writable : Bool) → Result LoadError (Unit {0})
  load_any_member info pool is_writable = do
    guard (info.owner == ids.pool_program) invalid_account_owner
    guard (not (data_is_empty info)) uninitialized_account
    member ← decoders.member_from_bytes info.payload
    guard (member.pool == pool) invalid_account_data
    guard (not (is_writable && not info.is_writable)) invalid_account_data

  unfoldable pub load_pool :
      LoadedInfo → (authority : Pubkey) (is_writable : Bool) → Result LoadError (Unit {0})
  load_pool info authority is_writable = do
    guard (info.owner == ids.pool_program) invalid_account_owner
    guard (not (data_is_empty info)) uninitialized_account
    pool ← decoders.pool_from_bytes info.payload
    guard (pool.authority == authority) invalid_account_data
    guard (not (is_writable && not info.is_writable)) invalid_account_data

  unfoldable pub load_any_pool : LoadedInfo → (is_writable : Bool) → Result LoadError (Unit {0})
  unfolding discriminator
  load_any_pool info is_writable = do
    guard (info.owner == ids.pool_program) invalid_account_owner
    guard (not (data_is_empty info)) uninitialized_account
    guard (first_byte info == discriminator AccountDiscriminator.pool) invalid_account_data
    guard (not (is_writable && not info.is_writable)) invalid_account_data

  unfoldable pub load_share :
      LoadedInfo → (authority pool mint : Pubkey) (is_writable : Bool) → Result LoadError (Unit {0})
  load_share info authority pool mint is_writable = do
    guard (info.owner == ids.pool_program) invalid_account_owner
    guard (not (data_is_empty info)) uninitialized_account
    share ← decoders.share_from_bytes info.payload
    guard (share.authority == authority) invalid_account_data
    guard (share.pool == pool) invalid_account_data
    guard (share.mint == mint) invalid_account_data
    guard (not (is_writable && not info.is_writable)) invalid_account_data
