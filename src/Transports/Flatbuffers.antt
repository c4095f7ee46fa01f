-- ===== src/Transports/Flatbuffers.antt =====
-- rt_client_server/transports/flatbuffers/flatbuffers_transport.cc. FlatBuffers and gRPC are
-- parameters: a message is its field `data`, which a peer may leave out.
pub mod Connect
pub mod Delivery
use rpc_transport_tests.Prelude.{ℕ, Option, none, some, List, [], ◌∷◌, ◌++◌, map, codes}
use rpc_transport_tests.Prelude.Decimal.{to_string}
use rpc_transport_tests.Memory.{
  Bytes, Msg, World, ok, Cmd, pure, fault, raise, runtime_error, or_abort, ◌>>=◌, ◌>>◌, resume,
}
use rpc_transport_tests.Transport.{ServerClass, Buffers, no_buffers, call_rcv_fn, push_string}
use rpc_transport_tests.Transports.Streams.{copy_bufs, release}
use rpc_transport_tests.Transports.Grpc.{Status, status_ok, status_error}

-- fbs_transport::Msg, with `none` for a message without the field.
abbrev pub FbsMsg : Type 0
FbsMsg = Option Bytes

-- `req->data()->str()`: `data()` is `nullptr` for a missing field.
data_str : FbsMsg → Cmd Bytes
data_str none = λ _. fault
data_str (some s) = pure s

-- `while (stream->Read(&reqMsg)) { ... }`
unfoldable pub receive_fbs : List FbsMsg → Buffers → Cmd Buffers
unfolding data_str
receive_fbs [] out = pure out
receive_fbs (m ∷ ms) out = do str ← data_str m; out' ← push_string str out; receive_fbs ms out'

-- `ReqReplyServiceImpl::ReqReply`
unfoldable pub req_reply : ServerClass → List FbsMsg → Cmd (List FbsMsg × Status)
unfolding receive_fbs
req_reply c reqs = do
  req ← receive_fbs reqs no_buffers
  rsp ← (λ w. or_abort (call_rcv_fn c req.msg no_buffers w))
  written ← copy_bufs rsp.msg.bufs
  release rsp.container
  release req.container
  pure (map some written, status_ok)

-- What `Read` gives until it ends, and the status of `Finish`, for the messages written before
-- `WritesDone`. It may differ from moment to moment.
abbrev pub Channel : Type 0
Channel = World → List FbsMsg → List FbsMsg × Status

transmit : Channel → List FbsMsg → Cmd (List FbsMsg × Status)
transmit call written w = ok (call w written) w

finish : Status → Buffers → Cmd Buffers
finish status_ok reply = pure reply
finish (status_error code message) reply =
    raise (runtime_error (codes "send failed: (" ++ (to_string code ++ (codes ") " ++ message))))

-- `FlatbuffersClient::sendReq`
unfoldable pub send_req : Channel → Msg → Buffers → Cmd Buffers
unfolding transmit finish receive_fbs
send_req call request reply = do
  written ← copy_bufs request.bufs
  (replies, status) ← transmit call (map some written)
  reply' ← receive_fbs replies reply
  finish status reply'
