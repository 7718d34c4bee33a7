-- ===== src/Admin/Commands.antt =====
-- admin/src/main.rs and the commands other than `init`. What a command prints is kept in the state as
-- the last lines.
use ore_pool.Prelude.{ℕ, List, Option, none, some, ok_or, if◌then◌else◌}
use ore_pool.Prelude.Text.{Env, Text, chars, equal_text}
use ore_pool.Prelude.Fallible.{Fallible, ◌>>=◌, ◌>>◌, lift, fail}
use ore_pool.Api.State.{Addresses, Pubkey, pool_pda, pool_proof_pda, member_pda}
use ore_pool.Api.Sdk.Operations.{build_open_stake}
use ore_pool.Admin.Error.{Error, missing_boost_mint, invalid_command}
use ore_pool.Admin.Node.{Node, AdminState, Line, get_account_data, send, decoded, print}
use ore_pool.Admin.Settings.{command, keypair, rpc_client, boost_mint, pool_url}
use ore_pool.Admin.Init.{init}

module _ {R : Type 0} (ids : Addresses) (rpc_client : Node R) (keypair : Pubkey) where
  unfoldable pub open_stake : Option Pubkey → Fallible Error (AdminState R) (Unit {0})
  open_stake mint = do
    mint ← lift (ok_or mint missing_boost_mint)
    sig ← send rpc_client keypair (build_open_stake ids keypair mint)
    print (Line.signature sig)

  unfoldable pub pool_account : Fallible Error (AdminState R) (Unit {0})
  pool_account = do
    let pda = (pool_pda ids keypair).0
    print (Line.pool_address pda)
    bytes ← get_account_data rpc_client pda
    pool ← lift (decoded (rpc_client.pool_from_bytes bytes))
    print (Line.pool pool)

  unfoldable pub proof_account : Fallible Error (AdminState R) (Unit {0})
  proof_account = do
    let pda = (pool_proof_pda ids (pool_pda ids keypair).0).0
    bytes ← get_account_data rpc_client pda
    proof ← lift (decoded (rpc_client.proof_from_bytes bytes))
    print (Line.proof_address pda)
    print (Line.proof proof)

  unfoldable pub member_account : Fallible Error (AdminState R) (Unit {0})
  member_account = do
    let pda = (member_pda ids keypair (pool_pda ids keypair).0).0
    print (Line.member_address pda)
    bytes ← get_account_data rpc_client pda
    member ← lift (decoded (rpc_client.member_from_bytes bytes))
    print (Line.member member)

  -- The `match` of `main`.
  unfoldable pub run_command :
      Text → Option Pubkey → Option (List ℕ) → Fallible Error (AdminState R) (Unit {0})
  run_command command mint url =
      if equal_text command (chars "init")
      then init ids rpc_client keypair url
      else if equal_text command (chars "open-stake")
      then open_stake mint
      else if equal_text command (chars "pool-account")
      then pool_account
      else if equal_text command (chars "proof-account")
      then proof_account
      else if equal_text command (chars "member-account")
      then member_account
      else fail invalid_command

-- `as_bytes` is the encoding of a `String`, and `connect` is `RpcClient::new_with_commitment`, which only makes a client for an address.
module _ {R : Type 0} (ids : Addresses) (env : Env) (pubkey_from_str : Text → Option Pubkey)
    (read_from_file : Text → Option Pubkey) (as_bytes : Text → List ℕ)
    (connect : Text → Node R) where
  unfoldable pub main : Fallible Error (AdminState R) (Unit {0})
  main = do
    cmd ← lift (command env)
    key ← lift (keypair env read_from_file)
    client ← lift (rpc_client env connect)
    mint ← boost_mint env pubkey_from_str
    run_command ids client key cmd mint
        (elim (pool_url env) [ none ↦ none | some url ↦ some (as_bytes url) ])
