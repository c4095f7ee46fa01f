-- ===== src/Payload.antt =====
-- rt_client_server/payload_creator.hpp: how every payload is put into a message.
pub mod Added
use rpc_transport_tests.Prelude.{
  back, ℕ, ltb, min, if◌then◌else◌, Option, none, some, List, [], ◌∷◌, length,
}
use rpc_transport_tests.Memory.{Ptr, DataBuf, Cmd, pure, ◌>>=◌, ◌>>◌, resume, or_fault}
use rpc_transport_tests.Proto.{Codec, Payload}
use rpc_transport_tests.Machine.{Machine, when_verbose}
use rpc_transport_tests.Transport.{Buffers, push_string}
use rpc_transport_tests.Transport.Hex.{log_bytes}
use rpc_transport_tests.Transport.LogLines.{log_back}

-- What the log lines of `addToMsg` read: the string through the buffer, and the string itself.
log_added : Buffers → Cmd (Unit {0})
log_added out = do
  buf ← or_fault (back out.msg.bufs)
  log_bytes buf.addr (min 100 buf.len)
  if ltb buf.len 100 then log_back out.container else pure tt

-- `PayloadCreator::addToMsg`
unfoldable pub add_to_msg : Codec → Machine → Payload → Buffers → Cmd Buffers
unfolding log_added
add_to_msg codec env payload out = do
  out' ← push_string (codec.serialize payload) out
  when_verbose env (log_added out')
  pure out'
