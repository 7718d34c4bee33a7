-- ===== src/Api/State.antt =====
-- api/src/state and api/src/consts.rs: the account types of the pool program and the addresses of
-- its accounts. A public key is a number: the code only compares and copies it.
use ore_pool.Prelude.{ℕ, List, [], ◌∷◌}
use ore_pool.Prelude.Int.{ℤ}

abbrev pub Pubkey : Type 0
Pubkey = ℕ

-- A slice that goes into the derivation of an address.
pub data Seed : Type 0 where
  bytes : List ℕ → Seed
  key : Pubkey → Seed

-- b"member", b"pool" and b"share"
abbrev pub member_seed : Seed
member_seed = bytes (109 ∷ 101 ∷ 109 ∷ 98 ∷ 101 ∷ 114 ∷ [])

abbrev pub pool_seed : Seed
pool_seed = bytes (112 ∷ 111 ∷ 111 ∷ 108 ∷ [])

abbrev pub share_seed : Seed
share_seed = bytes (115 ∷ 104 ∷ 97 ∷ 114 ∷ 101 ∷ [])

pub record Member : Type 0 where
  pub id : ℕ
  pub pool : Pubkey
  pub authority : Pubkey
  pub balance : ℕ
  pub total_balance : ℕ

pub record Pool : Type 0 where
  pub authority : Pubkey
  pub bump : ℕ
  pub url : List ℕ
  pub attestation : List ℕ
  pub last_hash_at : ℤ
  pub reward : ℕ
  pub total_submissions : ℕ
  pub total_members : ℕ
  pub last_total_members : ℕ

pub record Share : Type 0 where
  pub authority : Pubkey
  pub balance : ℕ
  pub mint : Pubkey
  pub pool : Pubkey

-- What the program and its clients take from other crates: program ids and fixed addresses, and
-- the derivations of addresses.
pub record Addresses : Type 0 where
  pub pool_program : Pubkey
  pub ore_program : Pubkey
  pub boost_program : Pubkey
  pub token_program : Pubkey
  pub associated_token_program : Pubkey
  pub system_program : Pubkey
  pub compute_budget : Pubkey
  pub slot_hashes : Pubkey
  pub instructions_sysvar : Pubkey
  pub ore_mint : Pubkey
  pub config : Pubkey
  pub treasury : Pubkey
  pub treasury_tokens : Pubkey
  pub proof_seed : Seed
  pub find_program_address : List Seed → Pubkey → Pubkey × ℕ
  pub get_associated_token_address : Pubkey → Pubkey → Pubkey
  pub boost_pda : Pubkey → Pubkey × ℕ
  pub stake_pda : Pubkey → Pubkey → Pubkey × ℕ

module _ (ids : Addresses) where
  unfoldable pub pool_pda : Pubkey → Pubkey × ℕ
  pool_pda authority = ids.find_program_address (pool_seed ∷ key authority ∷ []) ids.pool_program

  unfoldable pub pool_proof_pda : Pubkey → Pubkey × ℕ
  pool_proof_pda pool = ids.find_program_address (ids.proof_seed ∷ key pool ∷ []) ids.ore_program

  unfoldable pub pool_pending_stake_token_address : Pubkey → Pubkey → Pubkey
  pool_pending_stake_token_address pool mint = ids.get_associated_token_address pool mint

  unfoldable pub pool_stake_pda : Pubkey → Pubkey → Pubkey × ℕ
  pool_stake_pda pool mint = ids.stake_pda pool (ids.boost_pda mint).0

  unfoldable pub member_pda : Pubkey → Pubkey → Pubkey × ℕ
  member_pda authority pool =
      ids.find_program_address (member_seed ∷ key authority ∷ key pool ∷ []) ids.pool_program

  unfoldable pub share_pda : Pubkey → Pubkey → Pubkey → Pubkey × ℕ
  share_pda authority pool mint =
      ids.find_program_address (share_seed ∷ key authority ∷ key pool ∷ key mint ∷ [])
        ids.pool_program

-- `AccountDiscriminator`, and the byte of each case.
pub data AccountDiscriminator : Type 0 where
  member pool share : AccountDiscriminator

unfoldable pub discriminator : AccountDiscriminator → ℕ
discriminator AccountDiscriminator.member = 100
discriminator AccountDiscriminator.pool = 101
discriminator AccountDiscriminator.share = 102
