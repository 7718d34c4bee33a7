-- ===== src/Admin/Init.antt =====
-- admin/src/init.rs: the pool's account and the operator's member account are read, and created
-- first where reading fails.
use ore_pool.Prelude.{ℕ, List, Option, Result, ok, err, ok_or}
use ore_pool.Prelude.Fallible.{Fallible, ◌>>=◌, ◌>>◌, lift}
use ore_pool.Api.State.{Addresses, Pubkey, pool_pda, member_pda}
use ore_pool.Api.Sdk.{BuiltInstruction, build_join}
use ore_pool.Api.Error.{ApiError}
use ore_pool.Api.Sdk.Operations.{build_launch}
use ore_pool.Admin.Error.{Error, missing_pool_url, pool_api}
use ore_pool.Admin.Node.{Node, AdminState, Line, get_account_data, send, decoded, print}

-- `From<ApiError>`
abbrev pub from_api : {A : Type 0} → Result ApiError A → Result Error A
from_api (ok a) = ok a
from_api (err e) = err (pool_api e)

module _ {R : Type 0} (node : Node R) (keypair : Pubkey) where
  abbrev pub sleep : ℕ → Fallible Error (AdminState R) (Unit {0})
  sleep seconds s = (ok tt, record s { outside = node.sleep seconds s.outside })

  -- The branch of an account that could not be read.
  unfoldable pub create_pda :
      {T : Type 0}
      → (List ℕ → Option T)
      → (T → Line)
      → Pubkey
      → BuiltInstruction
      → Fallible Error (AdminState R) (Unit {0})
  create_pda try_from_bytes line pda create_ix = do
    sig ← send node keypair create_ix
    print (Line.signature sig)
    print Line.sleeping
    sleep 10
    print Line.fetching
    bytes ← get_account_data node pda
    account ← lift (decoded (try_from_bytes bytes))
    print (line account)

  -- The type of the account is its decoder and how it is printed.
  unfoldable pub get_or_create_pda :
      {T : Type 0}
      → (List ℕ → Option T)
      → (T → Line)
      → Pubkey
      → BuiltInstruction
      → Fallible Error (AdminState R) (Unit {0})
  get_or_create_pda try_from_bytes line pda create_ix s =
      let (answer, s') = get_account_data node pda s in
      elim answer [
        | err e ↦ create_pda try_from_bytes line pda create_ix s'
        | ok bytes ↦ (lift (decoded (try_from_bytes bytes)) >>= λ account. print (line account)) s'
      ]

module _ {R : Type 0} (ids : Addresses) (node : Node R) (keypair : Pubkey) where
  -- The url is given as its bytes.
  unfoldable pub init : Option (List ℕ) → Fallible Error (AdminState R) (Unit {0})
  init pool_url = do
    url ← lift (ok_or pool_url missing_pool_url)
    let pool_address = (pool_pda ids keypair).0
    launch_ix ← lift (from_api (build_launch ids keypair keypair url))
    print (Line.pool_address pool_address)
    get_or_create_pda node keypair node.pool_from_bytes Line.pool pool_address launch_ix
    let member_address = (member_pda ids keypair pool_address).0
    let join_ix = build_join ids keypair pool_address keypair
    print (Line.member_address member_address)
    get_or_create_pda node keypair node.member_from_bytes Line.member member_address join_ix
