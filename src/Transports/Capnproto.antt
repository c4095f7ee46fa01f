-- ===== src/Transports/Capnproto.antt =====
-- rt_client_server/transports/capnproto/capnproto_transport.cc. Cap'n Proto's runtime is a
-- parameter: it carries the calls on a callback to the peer, each when the one before is done.
pub mod Connect
pub mod Delivery
pub mod Sessions
use rpc_transport_tests.Prelude.{
  ℕ, zero, suc, ◌+◌, ◌==◌, if◌then◌else◌, Option, none, some, List, [], ◌∷◌, ◌++◌, length,
  get_elem?,
}
use rpc_transport_tests.Memory.{
  Bytes, DataBuf, Msg, World, ok, Cmd, pure, fault, raise, kj_exception, or_abort, ◌>>=◌, resume,
}
use rpc_transport_tests.Transport.{
  ServerClass, Buffers, no_buffers, call_rcv_fn, push_string, read_buf,
}

-- The calls on a RequestCallback, and those on a ReplyCallback.
pub data StreamCall : Type 0 where
  send_chunk : Bytes → StreamCall
  done : StreamCall

abbrev in_range : Option DataBuf → Cmd DataBuf
in_range none = λ _. fault
in_range (some b) = pure b

-- `sndMsg._bufs[i]`
pub elem_at : List DataBuf → ℕ → Cmd DataBuf
elem_at bufs i = in_range (get_elem? bufs i)

-- The chain of promises from buffer `i` on: a chunk for each buffer, then `done`. The fuel is one
-- more than the buffers that are left.
send_stream : ℕ → List DataBuf → ℕ → Cmd (List StreamCall)
send_stream zero bufs i = λ _. fault
send_stream (suc k) bufs i =
    let rest = send_stream k bufs (i + 1) in
    if i == length bufs
    then pure (done ∷ [])
    else (do b ← elem_at bufs i; chunk ← read_buf b; calls ← rest; pure (send_chunk chunk ∷ calls))

-- `ReqSvcImpl::sendReplyStream` from index 0.
unfoldable pub send_reply_stream : Msg → Cmd (List StreamCall)
unfolding send_stream elem_at
send_reply_stream snd = send_stream (suc (length snd.bufs)) snd.bufs 0

-- `CapnprotoClient::impl::sendRequestStream` from index 0.
unfoldable pub send_request_stream : Msg → Cmd (List StreamCall)
unfolding send_stream elem_at
send_request_stream snd = send_stream (suc (length snd.bufs)) snd.bufs 0

-- ReqSvcImpl: what was received, and what is sent.
pub record ReqSvc : Type 0 where
  pub rcv : Buffers
  pub snd : Buffers

-- `StreamServiceImpl::reqReply`
abbrev pub req_reply : ReqSvc
req_reply = record { rcv = no_buffers; snd = no_buffers }

-- `ReqSvcImpl::sendChunk`
unfoldable pub req_send_chunk : Bytes → ReqSvc → Cmd ReqSvc
req_send_chunk chunk svc = do rcv ← push_string chunk svc.rcv; pure (record svc { rcv = rcv })

-- `ReqSvcImpl::done`
unfoldable pub req_done : ServerClass → ReqSvc → Cmd (ReqSvc × List StreamCall)
req_done c svc = do
  snd ← (λ w. or_abort (call_rcv_fn c svc.rcv.msg svc.snd w))
  calls ← send_reply_stream snd.msg
  pure (record svc { snd = snd }, calls)

-- The calls on one ReqSvcImpl, and the calls on the ReplyCallback that they lead to.
unfoldable pub serve_calls : ServerClass → ReqSvc → List StreamCall → Cmd (List StreamCall)
unfolding req_send_chunk req_done
serve_calls c svc [] = pure []
serve_calls c svc (send_chunk chunk ∷ calls) = do
  svc' ← req_send_chunk chunk svc
  serve_calls c svc' calls
serve_calls c svc (done ∷ calls) = do
  (svc', replies) ← req_done c svc
  rest ← serve_calls c svc' calls
  pure (replies ++ rest)

-- `ReplySvcImpl::sendChunk` and `ReplySvcImpl::done`, for the calls that come.
unfoldable pub reply_calls : List StreamCall → Buffers → Cmd Buffers
reply_calls [] reply = pure reply
reply_calls (send_chunk chunk ∷ calls) reply = do
  reply' ← push_string chunk reply
  reply_calls calls reply'
reply_calls (done ∷ calls) reply = reply_calls calls reply

-- The calls that come back before the client's last promise resolves, or `none` where it is
-- rejected.
abbrev pub Channel : Type 0
Channel = World → List StreamCall → Option (List StreamCall)

abbrev resolved : Option (List StreamCall) → Cmd (List StreamCall)
resolved none = raise kj_exception
resolved (some calls) = pure calls

-- `CapnprotoClient::sendReq`
unfoldable pub send_req : Channel → Msg → Buffers → Cmd Buffers
send_req call request reply = do
  calls ← send_request_stream request
  back ← (λ w. resolved (call w calls) w)
  reply_calls back reply
