-- ===== src/Transports.antt =====
-- rt_client_server/transports: how each transport carries the strings of a message.
pub mod Streams
pub mod Restores
pub mod Dialing
pub mod Null
pub mod Grpc
pub mod Flatbuffers
pub mod Capnproto
pub mod Rsocket
pub mod Address
pub mod Handlers
