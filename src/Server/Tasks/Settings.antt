-- ===== src/Server/Tasks/Settings.antt =====
-- server/src/main.rs: the settings that the process reads of its environment.
use ore_pool.Prelude.{ℕ, ◌^◌, none, some, Result, ok_or, ◌>>=◌, ltb, if◌then◌else◌}
use Prim.Native.String.{String}
use ore_pool.Prelude.Text.{parse_u64}
use ore_pool.Server.Error.{Error, std_parse_int}
use ore_pool.Server.Operator.{Env, try_env_var}

-- `get_port`: 8080 where the variable is missing or is no `u16`
unfoldable pub get_port : Env → ℕ
get_port env = elim (env "PORT") [
  | none ↦ 8080
  | some text ↦ elim (parse_u64 text) [
    | none ↦ 8080
    | some port ↦ if ltb port (2 ^ 16) then port else 8080
  ]
]

-- `stake_commit_epoch` and `attribution_epoch`, in minutes
unfoldable pub epoch : Env → String → Result Error ℕ
epoch env name = do text ← try_env_var env name; ok_or (parse_u64 text) std_parse_int
