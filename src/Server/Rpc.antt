-- ===== src/Server/Rpc.antt =====
-- What the server relies on of a Solana node, of the connection to the database, and of the crates
-- that decode accounts: an interface whose state `R` is all that lies outside the server and its
-- tables.
use ore_pool.Prelude.{ℕ, List, Option, Bool}
use ore_pool.Prelude.Int.{ℤ}
use ore_pool.Api.State.{Pubkey, Pool, Member, Share}
use ore_pool.Api.Sdk.{BuiltInstruction}
use ore_pool.Server.Io.{Io}
use ore_pool.Server.Validate.{Transaction}

abbrev pub Signature : Type 0
Signature = ℕ

abbrev pub Hash : Type 0
Hash = ℕ

-- The instructions that the server sends.
pub data OutgoingInstruction : Type 0 where
  set_compute_unit_limit : ℕ → OutgoingInstruction
  set_compute_unit_price : ℕ → OutgoingInstruction
  ore_auth : (proof : Pubkey) → OutgoingInstruction
  pool_instruction : BuiltInstruction → OutgoingInstruction

-- `ore_api::state::Proof` and `Config`, `Bus` and `Clock`, the fields that the server reads.
pub record OreProof : Type 0 where
  pub challenge : List ℕ
  pub last_hash_at : ℤ

pub record OreConfig : Type 0 where
  pub min_difficulty : ℕ

pub record OreBus : Type 0 where
  pub id : ℕ
  pub rewards : ℕ

pub record Rpc (R : Type 0) : Type 0 where
  pub get_account_data : Pubkey → Io R (List ℕ)
  pub get_multiple_accounts : List Pubkey → Io R (List (Option (List ℕ)))
  pub get_latest_blockhash : Io R Hash
  pub send_transaction : Transaction → Io R Signature
  pub confirm_transaction_with_commitment : Signature → Io R Bool
  -- a connection out of the database's pool, and a statement that runs on it
  pub connect : Io R (Unit {0})
  pub run_statement : Io R (Unit {0})
  -- `Transaction::new_with_payer` and `sign`
  pub new_signed : Pubkey → List OutgoingInstruction → Hash → Transaction
  -- `partial_sign`
  pub partial_sign : Pubkey → Hash → Transaction → Transaction
  -- `try_from_bytes` of the account types, and `bincode::deserialize` of the clock's time
  pub pool_from_bytes : List ℕ → Option Pool
  pub member_from_bytes : List ℕ → Option Member
  pub share_from_bytes : List ℕ → Option Share
  pub proof_from_bytes : List ℕ → Option OreProof
  pub config_from_bytes : List ℕ → Option OreConfig
  pub bus_from_bytes : List ℕ → Option OreBus
  pub unix_timestamp : List ℕ → Option ℤ
