-- ===== src/Admin/Error.antt =====
-- admin/src/error.rs: the errors of the administrator's commands.
use ore_pool.Prelude.Text.{Text}
use ore_pool.Api.Error.{ApiError}

pub data Error : Type 0 where
  std_env : Error
  keypair_read : Text → Error
  pool_api : ApiError → Error
  solana_client solaan_program solana_parse_pubkey : Error
  missing_boost_mint missing_pool_url invalid_command : Error
