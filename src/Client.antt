-- ===== src/Client.antt =====
-- rt_client_server/rt_client.cc: requests, the check of a reply, one operation, and `main`.
pub mod Requests
pub mod Validator
pub mod Run
pub mod Main
pub mod Report
pub mod Connect
