-- ===== src/Server/Operator.antt =====
-- server/src/operator.rs: the operator's settings, and what it reads of the chain.
pub mod Reads
pub mod Cutoff
pub mod Chunks
pub mod Creation
use ore_pool.Prelude.{
  ℕ, ◌-◌, ◌^◌, min, List, [], ◌∷◌, ◌++◌, map, Option, none, some, Result, ok, err, ok_or, ◌>>=◌,
  if◌then◌else◌,
}
use ore_pool.Prelude.Int.{ℤ, pos, negsuc, ◌+ℤ◌, ◌-ℤ◌}
pub use ore_pool.Prelude.Text.{Env}
use ore_pool.Prelude.Text.{Text, chars, parse_u64}
use ore_pool.Prelude.Store.{Store, put}
use ore_pool.Api.State.{
  Addresses, Pubkey, Pool, Member, Share, pool_pda, pool_proof_pda, member_pda, share_pda,
}
use Prim.Native.String.{String}
use ore_pool.Server.Error.{Error, std_env, std_parse_int, solana_pubkey, solana_program, bincode}

-- A boost's mint, its account, and the pool's stake account in it.
pub record BoostAccount : Type 0 where
  pub mint : Pubkey
  pub boost : Pubkey
  pub stake : Pubkey

-- The key of the keypair, and the settings.
pub record Operator : Type 0 where
  pub keypair : Pubkey
  pub boost_accounts : List BoostAccount
  pub operator_commission : ℕ
  pub staker_commission : ℕ

abbrev pub buffer_operator : ℕ
buffer_operator = 5

abbrev pub buffer_client : ℕ
buffer_client = 7

abbrev pub i64_max : ℕ
i64_max = 2 ^ 63 - 1

-- The nearest `i64`, as `saturating_add` and `saturating_sub` return it.
abbrev pub saturate : ℤ → ℤ
saturate (pos n) = pos (min n i64_max)
saturate (negsuc n) = negsuc (min n i64_max)

-- `.max(0) as u64`
abbrev pub max_zero : ℤ → ℕ
max_zero (pos n) = n
max_zero (negsuc n) = 0

-- Seconds left at the time given, of the minute after the last hash less the buffer.
unfoldable pub cutoff : (last_hash_at unix_timestamp : ℤ) → ℕ
cutoff last_hash_at unix_timestamp = max_zero (
    saturate
      (saturate (saturate (last_hash_at +ℤ pos 60) -ℤ pos buffer_operator) -ℤ unix_timestamp))

-- An operator's own minimum, which it does not set.
abbrev pub min_difficulty_setting : Option ℕ
min_difficulty_setting = none

abbrev pub try_env_var : Env → String → Result Error Text
try_env_var env name = ok_or (env name) (std_env name)

module _ (ids : Addresses) where
  unfoldable pub new_boost_account : Pubkey → Pubkey → BoostAccount
  new_boost_account mint operator =
      let boost = (ids.boost_pda mint).0 in
      record {
        mint = mint;
        boost = boost;
        stake = (ids.stake_pda (pool_pda ids operator).0 boost).0;
      }

  unfoldable pub new_from_vec : List Pubkey → Pubkey → List BoostAccount
  new_from_vec [] operator = []
  new_from_vec (mint ∷ mints) operator =
      new_boost_account mint operator ∷ new_from_vec mints operator

unfoldable pub get_boost_mine_accounts : List BoostAccount → List Pubkey
get_boost_mine_accounts [] = []
get_boost_mine_accounts (ba ∷ bas) = ba.boost ∷ ba.stake ∷ get_boost_mine_accounts bas

abbrev pub get_boosts : List BoostAccount → List Pubkey
get_boosts = map (λ (ba : BoostAccount). ba.mint)

-- The environment, and `Pubkey::from_str`
module _ (env : Env) (pubkey_from_str : Text → Option Pubkey) where
  unfoldable pub load_boost : String → Result Error (Option Pubkey)
  load_boost var = elim (env var) [
    | none ↦ ok none
    | some text ↦ elim (pubkey_from_str text) [ none ↦ err solana_pubkey | some k ↦ ok (some k) ]
  ]

  abbrev pub flatten : List (Option Pubkey) → List Pubkey
  flatten [] = []
  flatten (none ∷ os) = flatten os
  flatten (some k ∷ os) = k ∷ flatten os

  unfoldable pub load_boosts : Result Error (List Pubkey)
  unfolding load_boost
  load_boosts = do
    boost_1 ← load_boost "BOOST_ONE"
    boost_2 ← load_boost "BOOST_TWO"
    boost_3 ← load_boost "BOOST_THREE"
    ok (flatten (boost_1 ∷ boost_2 ∷ boost_3 ∷ []))

-- `operator_commission` and `staker_commission`
unfoldable pub commission : Env → String → Result Error ℕ
commission env name = do text ← try_env_var env name; ok_or (parse_u64 text) std_parse_int
