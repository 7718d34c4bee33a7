-- ===== src/Admin/Refusals.antt =====
-- admin/src/main.rs: what a command needs of the environment.
use ore_pool.Prelude.{
  ℕ, ◌≡◌, List, Option, some, none, ok, err, Option-cases, arith, inl, inr, false,
}
use ore_pool.Prelude.Text.{Env, Text, chars, equal_text}
use ore_pool.Api.State.{Addresses, Pubkey}
use ore_pool.Admin.Error.{Error, std_env, keypair_read, invalid_command}
use ore_pool.Admin.Node.{Node, AdminState}
use ore_pool.Admin.Settings.{command, keypair, rpc_client, boost_mint, pool_url}
use ore_pool.Admin.Commands.{main, run_command}

-- No command of the program has this name.
abbrev pub IsUnknown : Text → Type 0
IsUnknown name =
    (equal_text name (chars "init") ≡ false)
    × (equal_text name (chars "open-stake") ≡ false)
    × (equal_text name (chars "pool-account") ≡ false)
    × (equal_text name (chars "proof-account") ≡ false)
    × (equal_text name (chars "member-account") ≡ false)

-- What is missing of the environment, in the order in which it is asked for, and the error.
pub data Lacks (env : Env) (read_from_file : Text → Option Pubkey) : Error → Type 0 where
  no_command : env "COMMAND" ≡ none → Lacks env read_from_file std_env
  no_path :
      (name : Text)
      → env "COMMAND" ≡ some name
      → env "KEYPAIR_PATH" ≡ none
      → Lacks env read_from_file std_env
  no_keypair :
      (name path : Text)
      → env "COMMAND" ≡ some name
      → env "KEYPAIR_PATH" ≡ some path
      → read_from_file path ≡ none
      → Lacks env read_from_file (keypair_read path)
  no_url :
      (name path : Text) (key : Pubkey)
      → env "COMMAND" ≡ some name
      → env "KEYPAIR_PATH" ≡ some path
      → read_from_file path ≡ some key
      → env "RPC_URL" ≡ none
      → Lacks env read_from_file std_env
  unknown :
      (name path url : Text) (key : Pubkey)
      → env "COMMAND" ≡ some name
      → env "KEYPAIR_PATH" ≡ some path
      → read_from_file path ≡ some key
      → env "RPC_URL" ≡ some url
      → IsUnknown name
      → Lacks env read_from_file invalid_command

boost_mint-ok :
    {R : Type 0} (env : Env) (pubkey_from_str : Text → Option Pubkey) (s : AdminState R)
    → (mint : Option Pubkey) × ((boost_mint env pubkey_from_str s).0 ≡ ok mint)
      × ((boost_mint env pubkey_from_str s).1.outside ≡ s.outside)
unfolding boost_mint
boost_mint-ok env pubkey_from_str s = elim (Option-cases (env "MINT")) [
  | inl e ↦ (none, ground (arith, e), ground (arith, e))
  | inr (text, e) ↦ elim (Option-cases (pubkey_from_str text)) [
    | inl e' ↦ (none, ground (arith, e, e'), ground (arith, e, e'))
    | inr (key, e') ↦ (some key, ground (arith, e, e'), ground (arith, e, e'))
  ]
]

run_command_unknown :
    {R : Type 0} (ids : Addresses) (client : Node R) (key : Pubkey) (name : Text)
    (mint : Option Pubkey) (url : Option (List ℕ)) (s : AdminState R)
    → IsUnknown name
    → run_command ids client key name mint url s ≡ (err invalid_command, s)
unfolding run_command
run_command_unknown ids client key name mint url s (a, b, c, d, e) = ground (arith, a, b, c, d, e)

module _ {R : Type 0} (ids : Addresses) (env : Env) (pubkey_from_str : Text → Option Pubkey)
    (read_from_file : Text → Option Pubkey) (as_bytes : Text → List ℕ)
    (connect : Text → Node R) where
  -- Without a command, a keypair that can be read, the address of a node, in this order, or with a
  -- command that is unknown, the program fails with the error of just that, and has called no node.
  pub main-Lacks :
      (s : AdminState R) (e : Error)
      → Lacks env read_from_file e
      → ((main ids env pubkey_from_str read_from_file as_bytes connect s).0 ≡ err e)
        × ((main ids env pubkey_from_str read_from_file as_bytes connect s).1.outside ≡ s.outside)
  unfolding main command keypair rpc_client
  main-Lacks s e (no_command h) = (ground (arith, h), ground (arith, h))
  main-Lacks s e (no_path name h h') = (ground (arith, h, h'), ground (arith, h, h'))
  main-Lacks s e (no_keypair name path h h' r) =
      (ground (arith, h, h', r), ground (arith, h, h', r))
  main-Lacks s e (no_url name path key h h' r u) =
      (ground (arith, h, h', r, u), ground (arith, h, h', r, u))
  main-Lacks s e (unknown name path url key h h' r u strange) =
      let (mint, read, kept) = boost_mint-ok env pubkey_from_str s in
      let after = (boost_mint env pubkey_from_str s).1 in
      let last =
        run_command_unknown ids (connect url) key name mint
          (elim (pool_url env) [ none ↦ none | some text ↦ some (as_bytes text) ]) after strange in
      (ground (arith, h, h', r, u, read, last), ground (arith, h, h', r, u, read, last, kept))
