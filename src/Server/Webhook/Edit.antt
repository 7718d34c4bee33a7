-- ===== src/Server/Webhook/Edit.antt =====
-- server/src/webhook.rs: the settings of the handler and of the client, and the request by which the
-- client replaces the accounts that are watched.
use ore_pool.Prelude.{List, [], ◌∷◌, ◌++◌, Result, ok, ◌>>=◌}
use ore_pool.Prelude.Text.{Text, chars}
use ore_pool.Api.State.{Pubkey}
use ore_pool.Server.Error.{Error}
use ore_pool.Server.Io.{Io}
use ore_pool.Server.Operator.{Env, try_env_var}

pub record Client : Type 0 where
  pub helius_api_key : Text
  pub helius_webhook_id : Text
  pub helius_webhook_url : Text
  pub helius_auth_token : Text

pub record ClientEditPayload : Type 0 where
  pub account_addresses : List Pubkey
  pub transaction_types : List Text
  pub webhook_type : Text
  pub webhook_url : Text
  pub auth_header : Text

-- `Handle::new`, of which only the token is kept
unfoldable pub new_handle : Env → Result Error Text
new_handle env = try_env_var env "HELIUS_AUTH_TOKEN"

unfoldable pub new_stake : Env → Result Error Client
new_stake env = do
  helius_api_key ← try_env_var env "HELIUS_API_KEY"
  helius_webhook_id ← try_env_var env "HELIUS_WEBHOOK_ID"
  helius_webhook_url ← try_env_var env "HELIUS_WEBHOOK_URL"
  helius_auth_token ← try_env_var env "HELIUS_AUTH_TOKEN"
  ok (record {
    helius_api_key = helius_api_key;
    helius_webhook_id = helius_webhook_id;
    helius_webhook_url = helius_webhook_url;
    helius_auth_token = helius_auth_token;
  })

unfoldable pub edit_url : Client → Text
edit_url client =
    chars "https://api.helius.xyz/v0/webhooks/"
    ++ client.helius_webhook_id
    ++ chars "?api-key="
    ++ client.helius_api_key

unfoldable pub edit_payload : Client → List Pubkey → ClientEditPayload
edit_payload client account_addresses = record {
  account_addresses = account_addresses;
  transaction_types = chars "all" ∷ [];
  webhook_type = chars "raw";
  webhook_url = client.helius_webhook_url;
  auth_header = client.helius_auth_token;
}

-- `send` is the request and the answer that it decodes to.
unfoldable pub edit :
    {R : Type 0}
    → (send : Text → ClientEditPayload → Io R (Unit {0})) → Client
    → List Pubkey
    → Io R (Unit {0})
edit send client account_addresses = send (edit_url client) (edit_payload client account_addresses)
