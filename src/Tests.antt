-- ===== src/Tests.antt =====
-- Runs of the theorems at concrete inputs.
mod Fixtures
mod Peers
mod Transporting
mod Starting
mod Interleaving
mod Threads
mod Greeting
mod Pieces
mod Examples
mod Logs
