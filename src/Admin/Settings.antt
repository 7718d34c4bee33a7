-- ===== src/Admin/Settings.antt =====
-- admin/src/main.rs: what the commands read of the environment.
use ore_pool.Prelude.{Option, none, some, Result, ok, ok_or, ◌>>=◌}
use ore_pool.Prelude.Text.{Env, Text}
use ore_pool.Prelude.Fallible.{Fallible}
use ore_pool.Api.State.{Pubkey}
use ore_pool.Admin.Error.{Error, std_env, keypair_read}
use ore_pool.Admin.Node.{Node, AdminState, Line, print}

unfoldable pub command : Env → Result Error Text
command env = ok_or (env "COMMAND") std_env

unfoldable pub pool_url : Env → Option Text
pool_url env = env "POOL_URL"

unfoldable pub keypair : Env → (Text → Option Pubkey) → Result Error Pubkey
keypair env read_from_file = do
  keypair_path ← ok_or (env "KEYPAIR_PATH") std_env
  ok_or (read_from_file keypair_path) (keypair_read keypair_path)

unfoldable pub rpc_client : {R : Type 0} → Env → (Text → Node R) → Result Error (Node R)
rpc_client env connect = do url ← ok_or (env "RPC_URL") std_env; ok (connect url)

-- A text that is no key counts as none, and the parser's error is printed.
unfoldable pub boost_mint :
    {R : Type 0} → Env → (Text → Option Pubkey) → Fallible Error (AdminState R) (Option Pubkey)
boost_mint env pubkey_from_str s = elim (env "MINT") [
  | none ↦ (ok none, s)
  | some mint ↦ elim (pubkey_from_str mint) [
    | none ↦ (ok none, (print Line.parse_error s).1)
    | some key ↦ (ok (some key), s)
  ]
]
