-- ===== src/Server/Io.antt =====
-- The server's asynchronous code, which may fail with an error of server/src/error.rs.
use ore_pool.Server.Error.{Error}
use ore_pool.Prelude.Fallible.{Fallible}
pub use ore_pool.Prelude.Fallible.{
  continue, ◌>>=◌, ◌>>◌, done, fail, lift, attempt, >>=-eq-done, Keeps, >>=-Keeps, same-Keeps,
  if-Keeps,
}

abbrev pub Io : Type 0 → Type 0 → Type 0
Io S A = Fallible Error S A
