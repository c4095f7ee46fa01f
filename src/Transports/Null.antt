-- ===== src/Transports/Null.antt =====
-- rt_client_server/transports/null/null_transport.cc
pub mod Connect
use rpc_transport_tests.Memory.{Msg, Cmd, pure}
use rpc_transport_tests.Transport.{Buffers}

-- `NullClient::sendReq` leaves the reply as it is.
unfoldable pub send_req : Msg → Buffers → Cmd Buffers
send_req request reply = pure reply

-- `NullServer::wait` returns at once.
unfoldable pub wait : Cmd (Unit {0})
wait = pure tt
