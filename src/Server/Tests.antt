-- ===== src/Server/Tests.antt =====
-- The server's functions on small inputs, and the theorems applied to them.
mod Round
mod Payouts
mod Signing
mod Stream
mod Mirroring
mod Node
mod Submitting
mod Cycling
mod Posting
mod Requests
mod Serving
mod Attesting
