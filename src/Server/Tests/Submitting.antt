-- ===== src/Server/Tests/Submitting.antt =====
-- server/src/tx/submit.rs and operator.rs: a transaction that lands at once, and reads of accounts.
use ore_pool.Prelude.{ℕ, ◌+◌, ◌<◌, ◌≤◌, ◌≡◌, ◌↔◌, refl, ok, [], true, arith}
use ore_pool.Server.Submit.{
  confirm_transaction, submit_and_confirm_transaction, send_loop, confirm_loop,
}
use ore_pool.Server.Submit.Attempts.{
  Confirms, Lands, confirm_transaction_iff, submit_and_confirm_transaction-Lands,
  submit_and_confirm_transaction_uses,
}
use ore_pool.Server.Tests.Node.{node}
use ore_pool.Server.Tests.Signing.{tx}

confirm_transaction_iff_example :
    ((confirm_transaction (node true) 77 0).0 ≡ ok tt)
    ↔ ((n : ℕ) × (n < 10) × Confirms (node true) n 77 0)
confirm_transaction_iff_example = confirm_transaction_iff (node true) 77 0

lands : submit_and_confirm_transaction (node true) (tx [] 0) 0 ≡ (ok 77, 2)
unfolding submit_and_confirm_transaction send_loop confirm_transaction confirm_loop
lands = refl

submit_and_confirm_transaction-Lands_example : Lands (node true) (tx [] 0) 77 2
submit_and_confirm_transaction-Lands_example =
    submit_and_confirm_transaction-Lands (node true) (tx [] 0) 77 0 2 lands

submit_and_confirm_transaction_uses_example :
    (submit_and_confirm_transaction (node true) (tx [] 0) 0).1 ≤ 0 + 55
submit_and_confirm_transaction_uses_example =
    submit_and_confirm_transaction_uses (node true) (λ r. r) (λ t r. omega arith)
      (λ s r. omega arith) (tx [] 0) 0
