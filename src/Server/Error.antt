-- ===== src/Server/Error.antt =====
-- server/src/error.rs: the errors of the server, and the HTTP response each becomes.
use Prim.Native.String.{String}

pub data Error : Type 0 where
  bincode base64_decode try_from_slice rewards_channel_send tokio_postgres deadpool_postgres : Error
  http_header reqwest serde_json std_io : Error
  std_env : String → Error
  std_parse_int solana_client solana_program solana_pubkey : Error
  member_does_not_exist staker_does_not_exist share_account_received proof_account_received : Error
  internal : String → Error

pub data HttpStatus : Type 0 where
  status_ok bad_request unauthorized not_found internal_server_error : HttpStatus

-- `impl From<Error> for HttpResponse`
unfoldable pub to_response : Error → HttpStatus
to_response member_does_not_exist = not_found
to_response staker_does_not_exist = not_found
to_response share_account_received = status_ok
to_response _ = internal_server_error
