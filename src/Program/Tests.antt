-- ===== src/Program/Tests.antt =====
-- A small chain that the handlers run on, and the theorems applied to it.
mod Money
mod Stake
mod Count
mod Built
