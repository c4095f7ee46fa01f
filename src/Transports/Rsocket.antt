-- ===== src/Transports/Rsocket.antt =====
-- rt_client_server/transports/rsocket/rsocket_transport.cc. RSocket's runtime is a parameter: the
-- payloads that reach a subscriber while the code runs.
pub mod Connect
pub mod Lifetimes
use rpc_transport_tests.Prelude.{ℕ, Option, none, some, List, [], ◌∷◌, ◌++◌, length, get_elem?}
use rpc_transport_tests.Memory.{
  Ptr, null, Bytes, DataBuf, Msg, message, string, World, ok, Cmd, pure, fault, or_abort, alloc,
  free, load_message, load_string, ◌>>=◌, ◌>>◌, resume,
}
use rpc_transport_tests.Transport.{ServerClass, Buffers, no_buffers, call_rcv_fn, read_buf}
use rpc_transport_tests.Transports.Streams.{receive, copy_bufs, release}

-- `range(0, size)->map(...)`: a flow whose payloads are made when they are asked for, from the
-- message that the closure holds by reference.
pub record FlowablePayload : Type 0 where
  pub snd_msg : Ptr
  pub size : ℕ

abbrev in_range : Option DataBuf → Cmd DataBuf
in_range none = λ _. fault
in_range (some b) = pure b

-- The closure under `map`, at an index.
unfoldable pub payload_at : FlowablePayload → ℕ → Cmd Bytes
payload_at flow idx = do
  m ← load_message flow.snd_msg
  b ← in_range (get_elem? m.bufs idx)
  read_buf b

-- `RsocketServer::Handler::handleRequestChannel`, for the payloads that reach its subscriber before
-- `subscribe` returns. The reply is a local variable, and ends with the call like the containers.
-- What it writes to the console is left out.
unfoldable pub handle_request_channel : ServerClass → List Bytes → Cmd FlowablePayload
handle_request_channel c payloads = do
  req ← receive payloads no_buffers
  rsp ← (λ w. or_abort (call_rcv_fn c req.msg no_buffers w))
  snd ← alloc (message rsp.msg)
  free snd
  release rsp.container
  release req.container
  pure (record { snd_msg = snd; size = length rsp.msg.bufs })

-- The client's subscriber: the string moves into the container, and the pointer that is left is
-- null.
unfoldable pub on_next : Bytes → Buffers → Cmd Buffers
on_next str reply = do
  p ← alloc (string str)
  let moved_to = reply.container ++ (p ∷ [])
  let str_p : Ptr = null
  s ← load_string str_p
  pure (record {
    msg = record { bufs = reply.msg.bufs ++ (record { addr = str_p; len = length s } ∷ []) };
    container = moved_to;
  })

on_all : List Bytes → Buffers → Cmd Buffers
on_all [] reply = pure reply
on_all (s ∷ ss) reply = do reply' ← on_next s reply; on_all ss reply'

-- The payloads that reach the client's subscriber before `sendReq` returns, which does not wait.
abbrev pub Channel : Type 0
Channel = World → List Bytes → List Bytes

transmit : Channel → List Bytes → Cmd (List Bytes)
transmit call written w = ok (call w written) w

-- `RsocketClient::sendReq`
unfoldable pub send_req : Channel → Msg → Buffers → Cmd Buffers
unfolding transmit on_all
send_req call request reply = do
  written ← copy_bufs request.bufs
  replies ← transmit call written
  on_all replies reply
