-- ===== src/Admin/Tests/Runs.antt =====
-- admin/src: `init` on a chain without accounts and again, and a command that there is not.
use ore_pool.Prelude.{ℕ, ◌≡◌, refl, List, [], ◌∷◌, none, some, ok, err}
use ore_pool.Prelude.Store.{get, put}
use ore_pool.Prelude.Text.{Env, chars, equal_text}
use ore_pool.Prelude.Words.{to_le_bytes, from_le_bytes}
use ore_pool.Api.Sample.{ids}
use ore_pool.Api.State.{Member, pool_pda, member_pda, pool_proof_pda}
use ore_pool.Api.Instruction.{read_launch, read_bump}
use ore_pool.Api.Sdk.{build_join}
use ore_pool.Api.Sdk.Operations.{build_launch, url_to_bytes}
use ore_pool.Program.Runtime.{Chain}
use ore_pool.Program.User.{process_join, join_accounts}
use ore_pool.Program.Admin.{process_launch, launch_accounts}
use ore_pool.Program.Dispatch.{run_instruction}
use ore_pool.Program.Sample.{rt, pool_of}
use ore_pool.Admin.Error.{invalid_command}
use ore_pool.Admin.Node.{Node, AdminState, send}
use ore_pool.Admin.Init.{init, get_or_create_pda, create_pda}
use ore_pool.Admin.Commands.{main}
use ore_pool.Admin.Ready.{IsReady, init-IsReady}
use ore_pool.Admin.Refusals.{IsUnknown, unknown, main-Lacks}
use ore_pool.Admin.Tests.Ledger.{ledger, follows}

abbrev empty : AdminState (Chain (ℕ × ℕ))
empty = record {
  outside = record { pools = []; members = []; shares = []; outside = (0, 0) };
  printed = [];
}

abbrev ready : AdminState (Chain (ℕ × ℕ))
ready = (init ids ledger 9 (some (104 ∷ 105 ∷ [])) empty).1

inits : init ids ledger 9 (some (104 ∷ 105 ∷ [])) empty ≡ (ok tt, ready)
unfolding init get_or_create_pda create_pda send build_launch build_join url_to_bytes
    run_instruction process_launch process_join launch_accounts join_accounts read_launch read_bump
    get put to_le_bytes from_le_bytes pool_pda member_pda pool_proof_pda
inits = refl

init-IsReady_example :
    IsReady ids 9 (104 ∷ 105 ∷ []) (follows.chain empty.outside) (follows.chain ready.outside)
init-IsReady_example = init-IsReady rt ids ledger 9 follows empty (104 ∷ 105 ∷ []) inits

abbrev member : Member
member = record { id = 0; pool = 100; authority = 9; balance = 0; total_balance = 0 }

-- A node that shows every account, as a pool and as a member.
abbrev node : Node ℕ
node = record {
  fetch = λ a r. (some (a ∷ []), r);
  get_latest_blockhash = λ r. (none, r);
  send_transaction = λ payer ix hash r. (none, r);
  sleep = λ seconds r. r;
  pool_from_bytes = λ bytes. some (pool_of 9);
  member_from_bytes = λ bytes. some member;
  proof_from_bytes = λ bytes. none;
}

abbrev url : List ℕ
url = 104 ∷ []

abbrev state : AdminState ℕ
state = record { outside = 0; printed = [] }

-- Every variable is set to the same text.
abbrev env : Env
env name = some (chars "vote")

no_such_command : IsUnknown (chars "vote")
unfolding equal_text
no_such_command = (refl, refl, refl, refl, refl)

main-Lacks_example :
    ((main ids env (λ text. none) (λ path. some 9) (λ text. text) (λ url. node) state).0
      ≡ err invalid_command)
    × ((main ids env (λ text. none) (λ path. some 9) (λ text. text) (λ url. node) state).1.outside
        ≡ 0)
main-Lacks_example =
    main-Lacks ids env (λ text. none) (λ path. some 9) (λ text. text) (λ url. node) state
      invalid_command
      (unknown (chars "vote") (chars "vote") (chars "vote") 9 refl refl refl refl no_such_command)
