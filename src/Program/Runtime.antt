-- ===== src/Program/Runtime.antt =====
-- What a handler of program/src runs against: the accounts of the pool program, decoded, and an
-- interface for the checks of steel and for the programs that a handler calls.
use ore_pool.Prelude.{
  ℕ, ◌%◌, Result, ok, ◌>>=◌, ◌>>◌, guard, ok_or, List, [], ◌∷◌, Option, none, some, Bool, true,
  false, ◌&&◌,
}
use ore_pool.Prelude.Int.{ℤ}
use ore_pool.Prelude.Store.{Store, get, put}
use ore_pool.Api.State.{Pubkey, Seed, bytes, Pool, Member, Share}

pub data ProgramError : Type 0 where
  -- the `let [..] = accounts else` of every handler
  not_enough_account_keys : ProgramError
  invalid_instruction_data : ProgramError
  -- a check of steel that did not return `Ok`, whichever error it chose
  rejected : ProgramError
  -- a call of another program that failed
  call_failed : ProgramError
  -- `unwrap` on `None`, or an index out of range: the transaction aborts
  panicked : ProgramError

pub record AccountInfo : Type 0 where
  pub key : Pubkey
  pub is_signer : Bool
  pub is_writable : Bool

pub record TokenAccount : Type 0 where
  pub mint : Pubkey
  pub owner : Pubkey
  pub amount : ℕ

-- The fields of other programs' accounts that the handlers read.
pub record Boost : Type 0 where
  pub mint : Pubkey

pub record BoostStake : Type 0 where
  pub authority : Pubkey
  pub boost : Pubkey

pub record Proof : Type 0 where
  pub authority : Pubkey
  pub balance : ℕ
  pub last_hash_at : ℤ

-- The instructions of other programs that the handlers send, with the arguments of their builders.
pub data Instruction : Type 0 where
  ore_open : (signer miner payer : Pubkey) → Instruction
  ore_claim : (signer beneficiary : Pubkey) (amount : ℕ) → Instruction
  ore_mine :
      (signer authority bus : Pubkey) (digest nonce : List ℕ) (optional : List Pubkey) → Instruction
  boost_open : (signer payer mint : Pubkey) → Instruction
  boost_deposit : (signer mint : Pubkey) (amount : ℕ) → Instruction
  boost_withdraw : (signer mint : Pubkey) (amount : ℕ) → Instruction
  token_transfer : (authority source target : Pubkey) (amount : ℕ) → Instruction
  create_associated_token_account : (funder owner token_account mint : Pubkey) → Instruction
  create_account : (account : Pubkey) (seeds : List Seed) (payer : Pubkey) → Instruction

-- Steel's checks say whether they return `Ok`. `X` is the state of all accounts that the pool
-- program does not own; `invoke` is a call with the accounts passed and the seeds signed for.
pub record Runtime (X : Type 0) : Type 0 where
  pub is_signer : AccountInfo → Bool
  pub is_writable : AccountInfo → Bool
  pub is_program : AccountInfo → Pubkey → Bool
  pub is_sysvar : AccountInfo → Pubkey → Bool
  pub has_seeds : AccountInfo → List Seed → ℕ → Pubkey → Bool
  -- what `to_account_mut` asks of an account beyond its contents
  pub is_mutable : AccountInfo → Bool
  pub is_vacant : X → AccountInfo → Bool
  pub to_mint : X → AccountInfo → Bool
  pub to_token_account : X → AccountInfo → Option TokenAccount
  pub to_associated_token_account : X → AccountInfo → Pubkey → Pubkey → Option TokenAccount
  pub to_boost : X → AccountInfo → Option Boost
  pub to_stake : X → AccountInfo → Option BoostStake
  pub to_proof : X → AccountInfo → Option Proof
  -- the memory that an earlier `to_proof` refers to, read again
  pub proof_memory : X → AccountInfo → Proof
  pub invoke : Instruction → List AccountInfo → List Seed → X → Option X

-- The accounts that the pool program owns, by key, and the rest of the chain.
pub record Chain (X : Type 0) : Type 0 where
  pub pools : Store Pool
  pub members : Store Member
  pub shares : Store Share
  pub outside : X

abbrev pub is_none : {A : Type 0} → Option A → Bool
is_none none = true
is_none (some a) = false

abbrev pub check : Bool → Result ProgramError (Unit {0})
check b = guard b rejected

abbrev pub unwrap : {A : Type 0} → Option A → Result ProgramError A
unwrap o = ok_or o panicked

abbrev pub loaded : {A : Type 0} → Option A → Result ProgramError A
loaded o = ok_or o rejected

abbrev pub parsed : {A : Type 0} → Option A → Result ProgramError A
parsed o = ok_or o invalid_instruction_data

-- `&[bump as u8]`
abbrev pub bump_seed : ℕ → Seed
bump_seed b = bytes (b % 256 ∷ [])

module _ {X : Type 0} (rt : Runtime X) where
  -- `data_is_empty`: no account of this program or of another
  abbrev pub is_empty : Chain X → AccountInfo → Bool
  is_empty c info =
      is_none (get info.key c.pools)
      && is_none (get info.key c.members)
      && is_none (get info.key c.shares)
      && rt.is_vacant c.outside info

  -- `to_account_mut::<Pool>(&ore_pool_api::ID)`, and for the other two types
  abbrev pub to_pool_mut : Chain X → AccountInfo → Result ProgramError Pool
  to_pool_mut c info = check (rt.is_mutable info) >> loaded (get info.key c.pools)

  abbrev pub to_member_mut : Chain X → AccountInfo → Result ProgramError Member
  to_member_mut c info = check (rt.is_mutable info) >> loaded (get info.key c.members)

  abbrev pub to_share_mut : Chain X → AccountInfo → Result ProgramError Share
  to_share_mut c info = check (rt.is_mutable info) >> loaded (get info.key c.shares)

  -- `invoke` and `invoke_signed`: the call changes no account of this program
  abbrev pub invoke_signed :
      Chain X → Instruction → List AccountInfo → List Seed → Result ProgramError (Chain X)
  invoke_signed c ix infos seeds =
      ok_or (rt.invoke ix infos seeds c.outside) call_failed >>= λ x. ok (record c { outside = x })

-- `to_account::<Pool>(&ore_pool_api::ID)`
abbrev pub to_pool : {X : Type 0} → Chain X → AccountInfo → Result ProgramError Pool
to_pool c info = loaded (get info.key c.pools)

abbrev pub to_member : {X : Type 0} → Chain X → AccountInfo → Result ProgramError Member
to_member c info = loaded (get info.key c.members)

abbrev pub set_pool : {X : Type 0} → Chain X → AccountInfo → Pool → Chain X
set_pool c info p = record c { pools = put info.key p c.pools }

abbrev pub set_member : {X : Type 0} → Chain X → AccountInfo → Member → Chain X
set_member c info m = record c { members = put info.key m c.members }

abbrev pub set_share : {X : Type 0} → Chain X → AccountInfo → Share → Chain X
set_share c info s = record c { shares = put info.key s c.shares }
