-- ===== src/Transports/Grpc.antt =====
-- rt_client_server/transports/grpc/grpc_transport.cc. The gRPC runtime is a parameter: for a
-- client the answer to the strings that it writes, for a server the strings that it reads.
pub mod Connect
pub mod Sessions
pub mod Delivery
pub mod Unlogged
use rpc_transport_tests.Prelude.{ℕ, back, ltb, if◌then◌else◌, List, [], ◌∷◌, ◌++◌, codes}
use rpc_transport_tests.Prelude.Decimal.{to_string}
use rpc_transport_tests.Memory.{
  Bytes, DataBuf, or_fault, Msg, World, ok, Cmd, pure, raise, runtime_error, or_abort, ◌>>=◌, ◌>>◌,
  resume,
}
use rpc_transport_tests.Transport.{
  ServerClass, Buffers, no_buffers, call_rcv_fn, push_string, read_buf,
}
use rpc_transport_tests.Machine.{Machine, when_verbose}
use rpc_transport_tests.Transport.Hex.{log_bytes}
use rpc_transport_tests.Transport.LogLines.{log_back}
use rpc_transport_tests.Transports.Streams.{receive, copy_bufs, release}

-- grpc::Status
pub data Status : Type 0 where
  status_ok : Status
  status_error : ℕ → Bytes → Status

-- What the log lines of a string that came read.
log_received : Buffers → Cmd (Unit {0})
log_received out = do
  buf ← or_fault (back out.msg.bufs)
  if ltb buf.len 100 then (do log_bytes buf.addr 1; log_back out.container) else pure tt

-- `while (stream->Read(&req)) { ... }` over the strings that come.
unfoldable pub read_requests : Machine → List Bytes → Buffers → Cmd Buffers
unfolding log_received
read_requests env [] out = pure out
read_requests env (s ∷ ss) out = do
  out' ← push_string s out
  when_verbose env (log_received out')
  read_requests env ss out'

-- `for (const auto &buf : request._bufs)`: the strings that are copied and written. The other log
-- lines read the copy.
pub write_requests : Machine → List DataBuf → Cmd (List Bytes)
write_requests env [] = pure []
write_requests env (b ∷ bs) = do
  when_verbose env (log_bytes b.addr 1)
  s ← read_buf b
  ss ← write_requests env bs
  pure (s ∷ ss)

-- `ReqReplyServiceImpl::ReqReply`: from the strings that `Read` gives to those that it writes. Its
-- two containers end with it.
unfoldable pub req_reply : Machine → ServerClass → List Bytes → Cmd (List Bytes × Status)
req_reply env c reqs = do
  req ← read_requests env reqs no_buffers
  rsp ← (λ w. or_abort (call_rcv_fn c req.msg no_buffers w))
  written ← copy_bufs rsp.msg.bufs
  release rsp.container
  release req.container
  pure (written, status_ok)

-- What `Read` gives until it ends, and the status of `Finish`, for the strings written before
-- `WritesDone`. It may differ from moment to moment.
abbrev pub Channel : Type 0
Channel = World → List Bytes → List Bytes × Status

transmit : Channel → List Bytes → Cmd (List Bytes × Status)
transmit call written w = ok (call w written) w

finish : Status → Buffers → Cmd Buffers
finish status_ok reply = pure reply
finish (status_error code message) reply =
    raise (runtime_error (codes "send failed: (" ++ (to_string code ++ (codes ") " ++ message))))

-- `GrpcClient::sendReq`
unfoldable pub send_req : Machine → Channel → Msg → Buffers → Cmd Buffers
unfolding finish transmit
send_req env call request reply = do
  written ← write_requests env request.bufs
  (replies, status) ← transmit call written
  reply' ← receive replies reply
  finish status reply'
