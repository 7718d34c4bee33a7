-- ===== src/Server/Tests/Requests.antt =====
-- server/src/contributor.rs and database.rs: a member that registers, mines and has its balance
-- written.
use ore_pool.Prelude.{
  ℕ, ◌++◌, ◌^◌, ◌≡◌, ◌↔◌, refl, ok, [], ◌∷◌, true, false, min, ltb, if◌then◌else◌,
}
use ore_pool.Prelude.Int.{pos, ◌+ℤ◌}
use ore_pool.Api.State.{pool_pda, member_pda}
use ore_pool.Api.Instruction.{read_amount}
use ore_pool.Prelude.Words.{from_le_bytes}
use ore_pool.Api.Sample.{ids}
use ore_pool.Server.Error.{status_ok}
use ore_pool.Server.State.{ServerState}
use ore_pool.Server.Aggregator.{max_score}
use ore_pool.Server.Database.{
  MemberRow, read_member, update_total_balance, write_synced_members, write_new_member,
}
use ore_pool.Server.Database.Sync.{write_synced_members-read_member}
use ore_pool.Server.Operator.{Operator}
use ore_pool.Server.Operator.Reads.{get_member_db, get_member_onchain}
use ore_pool.Server.Submit.{
  submit_and_confirm_transaction, send_loop, confirm_transaction, confirm_loop,
}
use ore_pool.Server.Validate.{
  returns, validate_attribution, validate_instructions, check_compute_budget, check_attribution,
  check_amount,
}
use ore_pool.Server.Contributor.{
  Checks, ContributePayload, UpdateBalancePayload, BalanceUpdate, contribute, score_of,
}
use ore_pool.Server.Contributor.Accounts.{
  update_balance_onchain, land_balance, fee_payer, register_new_member, query_member, insert_member,
}
use ore_pool.Server.Contributor.Enrolment.{Registers, register_new_member-Registers}
use ore_pool.Server.Contributor.Contribute.{IsAdmissible, contribute_iff}
use ore_pool.Server.Contributor.Balance.{IsBacked, update_balance_onchain-IsBacked}
use ore_pool.Server.Contributor.Scores.{score_of-max_score}
use ore_pool.Server.Tests.Node.{node, operator, serving}
use ore_pool.Server.Tests.Round.{difficulty, found}
use ore_pool.Server.Tests.Signing.{tx}

-- The account of the pool is not the one that pays.
abbrev pub cashier : Operator
cashier = record operator { keypair = 8 }

abbrev row : MemberRow
row = record {
  address = (member_pda ids 5 (pool_pda ids 8).0).0;
  id = pos 1;
  authority = 5;
  pool_address = (pool_pda ids 8).0;
  total_balance = pos 10;
  is_approved = false;
  is_kyc = false;
  is_synced = false;
}

abbrev pub served : ServerState ℕ
served = serving (row ∷ [])

abbrev pub checks : Checks
checks = record {
  difficulty = difficulty;
  solution_to_bytes = λ s. s.d ++ s.n;
  verify = λ signature key bytes. true;
  is_valid_digest = λ challenge nonce digest. true;
}

abbrev pub mined : ContributePayload
mined = record { authority = 5; solution = found 7; signature = 1 }

contribute_iff_example :
    ((contribute (node true) ids cashier checks mined served).0 ≡ status_ok)
    ↔ IsAdmissible (node true) ids cashier checks mined served
contribute_iff_example = contribute_iff (node true) ids cashier checks mined served

row_is_read : read_member (row ∷ []) (member_pda ids 5 (pool_pda ids 8).0).0 ≡ ok row
unfolding read_member member_pda pool_pda
row_is_read = refl

abbrev pub asked : UpdateBalancePayload
asked = record { authority = 5; transaction = tx [] 5; hash = 3 }

abbrev written : BalanceUpdate
written = record { balance = 10; signature = 77 }

abbrev synced : ServerState ℕ
synced = record served { members = record row { is_synced = true } ∷ []; outside = 2 }

writes :
    update_balance_onchain (node true) ids cashier asked served ≡ (returns (ok written), synced)
unfolding update_balance_onchain land_balance fee_payer get_member_db read_member
    write_synced_members validate_attribution validate_instructions check_compute_budget
    check_attribution check_amount submit_and_confirm_transaction send_loop confirm_transaction
    confirm_loop member_pda pool_pda read_amount from_le_bytes
writes = refl

update_balance_onchain-IsBacked_example :
    IsBacked (node true) ids cashier asked served synced written
update_balance_onchain-IsBacked_example =
    update_balance_onchain-IsBacked (node true) ids cashier asked served synced written writes

abbrev credited : MemberRow
credited = record row { total_balance = pos 17; is_synced = false }

credits : update_total_balance (pos 7) row.address (row ∷ []) ≡ ok (credited ∷ [])
unfolding update_total_balance ◌+ℤ◌ member_pda pool_pda
credits = refl

write_synced_members-read_member_example :
    read_member (write_synced_members (credited ∷ []) (row.address ∷ [])) row.address
    ≡ ok (record row { total_balance = pos 10 +ℤ pos 7; is_synced = true })
write_synced_members-read_member_example =
    write_synced_members-read_member (row ∷ []) (credited ∷ []) row.address row (pos 7) row_is_read
      credits

score_of-max_score_example : min (score_of 30) max_score ≡ (if ltb 30 64 then 2 ^ min 30 22 else 0)
score_of-max_score_example = score_of-max_score 30

-- The node shows the account of a member that the table does not have.
abbrev enrolled : MemberRow
enrolled = record {
  address = (member_pda ids 5 100).0;
  id = pos 1;
  authority = 5;
  pool_address = 100;
  total_balance = pos 0;
  is_approved = false;
  is_kyc = false;
  is_synced = true;
}

abbrev registered : ServerState ℕ
registered = record (serving []) { members = enrolled ∷ []; outside = 1 }

registers :
    register_new_member (node true) ids cashier (record { authority = 5 }) (serving [])
    ≡ (ok enrolled, registered)
unfolding register_new_member query_member insert_member get_member_onchain read_member
    write_new_member member_pda pool_pda
registers = refl

register_new_member-Registers_example :
    Registers (node true) ids cashier 5 (serving []) registered enrolled
register_new_member-Registers_example =
    register_new_member-Registers (node true) ids cashier 5 (serving []) registered enrolled
      registers
