-- ===== src/Admin/Tests.antt =====
-- The administrator's commands on small inputs, and the theorems applied to them.
mod Ledger
mod Runs
