-- ===== src/Server/Operator/Creation.antt =====
-- server/src/operator.rs: the operator as the process creates it from its environment.
use ore_pool.Prelude.{Option, none, some, Result, ok, err, ◌>>=◌, Bool, false, if◌then◌else◌}
use Prim.Native.String.{String}
use ore_pool.Prelude.Text.{Text}
use ore_pool.Api.State.{Addresses, Pubkey}
use ore_pool.Server.Error.{Error, internal}
use ore_pool.Server.Validate.{Outcome, returns, panics}
use ore_pool.Server.Operator.{Operator, Env, try_env_var, load_boosts, commission, new_from_vec}

-- `Keypair::read_from_file` with the text of its error, `Pubkey::from_str`, and whether a pool of
-- connections can be made for an address.
module _ (ids : Addresses) (env : Env) (pubkey_from_str : Text → Option Pubkey)
    (read_from_file : Text → Result String Pubkey) (creates_pool : Text → Bool) where
  abbrev pub map_err_internal : Result String Pubkey → Result Error Pubkey
  map_err_internal (ok keypair) = ok keypair
  map_err_internal (err text) = err (internal text)

  unfoldable pub load_keypair : Result Error Pubkey
  load_keypair = do path ← try_env_var env "KEYPAIR_PATH"; map_err_internal (read_from_file path)

  -- The key, and the address of the node, of which a client is made.
  unfoldable pub key_and_client : Result Error Pubkey
  key_and_client = do keypair ← load_keypair; url ← try_env_var env "RPC_URL"; ok keypair

  -- `create_pool` panics where there is no address, or no pool can be made.
  unfoldable pub create_pool : Bool
  create_pool = elim (env "DB_URL") [ none ↦ false | some url ↦ creates_pool url ]

  unfoldable pub load_settings : Pubkey → Result Error Operator
  load_settings keypair = do
    boosts ← load_boosts env pubkey_from_str
    operator_commission ← commission env "OPERATOR_COMMISSION"
    staker_commission ← commission env "STAKER_COMMISSION"
    ok (record {
      keypair = keypair;
      boost_accounts = new_from_vec ids boosts keypair;
      operator_commission = operator_commission;
      staker_commission = staker_commission;
    })

  unfoldable pub new_operator : Outcome Operator
  new_operator = elim key_and_client [
    | err e ↦ returns (err e)
    | ok keypair ↦ if create_pool then returns (load_settings keypair) else panics
  ]
