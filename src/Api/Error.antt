-- ===== src/Api/Error.antt =====
-- api/src/error.rs: the errors of the program that have a number, and the error of the builders.
use ore_pool.Prelude.{ℕ}

pub data PoolError : Type 0 where
  missing_mining_reward could_not_parse_mining_reward : PoolError

-- The number that the program would return.
unfoldable pub pool_error_code : PoolError → ℕ
pool_error_code missing_mining_reward = 0
pool_error_code could_not_parse_mining_reward = 1

pub data ApiError : Type 0 where
  url_too_large : ApiError
