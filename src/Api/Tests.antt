-- ===== src/Api/Tests.antt =====
-- The loaders and the builders on small inputs.
mod Loading
