-- ===== src/Transports/Capnproto/Sessions.antt =====
-- The server of capnproto_transport.cc with several requests at a time: a ReqSvcImpl for each call
-- of reqReply, in one memory, and the runtime's event loop, which takes calls and continuations
-- one after another.
pub mod Replies
pub mod Isolation
pub mod Progress
use rpc_transport_tests.Prelude.{
  set, ℕ, suc, ◌+◌, ◌==◌, ◌≡◌, if◌then◌else◌, Option, none, some, List, [], ◌∷◌, ◌++◌, length,
}
use rpc_transport_tests.Memory.{Bytes, Msg, World, Cmd, pure, ok, ◌>>=◌, resume, or_abort}
use rpc_transport_tests.Transport.{ServerClass, call_rcv_fn, read_buf}
use rpc_transport_tests.Transport.Contracts.{Service}
use rpc_transport_tests.Transports.Capnproto.{
  StreamCall, send_chunk, done, elem_at, ReqSvc, req_reply, req_send_chunk,
}

-- What an object does: it takes chunks, it is about to send the buffer at an index, or it is ready.
pub data Phase : Type 0 where
  collecting replied : Phase
  replying : ℕ → Phase

-- A ReqSvcImpl, with the chunks that came for it and the calls that it made.
pub record Session : Type 0 where
  pub svc : ReqSvc
  pub phase : Phase
  pub request : List Bytes
  pub reply : List StreamCall

-- `StreamServiceImpl::reqReply`
abbrev pub opened : Session
opened = record { svc = req_reply; phase = collecting; request = []; reply = [] }

-- `ReqSvcImpl::sendChunk`
unfoldable pub serve_chunk : Bytes → Session → Cmd Session
serve_chunk chunk x = do
  svc ← req_send_chunk chunk x.svc
  pure (record x { svc = svc; request = x.request ++ (chunk ∷ []) })

-- `ReqSvcImpl::done`, up to the call of `sendReplyStream`.
unfoldable pub serve_done : ServerClass → Session → Cmd Session
serve_done c x = do
  snd ← (λ w. or_abort (call_rcv_fn c x.svc.rcv.msg x.svc.snd w))
  pure (record x { svc = record x.svc { snd = snd }; phase = replying 0 })

-- One call of `ReqSvcImpl::sendReplyStream`: a chunk and the index that comes next, or `done`.
reply_step : Msg → ℕ → Cmd (StreamCall × Phase)
reply_step snd i =
    if i == length snd.bufs
    then pure (done, replied)
    else (do b ← elem_at snd.bufs i; chunk ← read_buf b; pure (send_chunk chunk, replying (i + 1)))

unfoldable pub serve_reply : ℕ → Session → Cmd Session
unfolding reply_step elem_at
serve_reply i x = do
  (call, phase) ← reply_step x.svc.snd.msg i
  pure (record x { phase = phase; reply = x.reply ++ (call ∷ []) })

-- The objects by their numbers, and the memory of the process.
pub record Sessions : Type 0 where
  pub at : ℕ → Option Session
  pub count : ℕ
  pub memory : World

abbrev pub no_sessions : World → Sessions
no_sessions w = record { at = λ i. none; count = 0; memory = w }

abbrev pub put : ℕ → Session → World → Sessions → Sessions
put i x w t = record t { at = set t.at i (some x); memory = w }

-- What an object may be asked next. As `sendRequestStream` does, a client sends its chunks and then
-- `done`, once; the service answers the request that came.
pub data Due (s : Service) (c : ServerClass) (w : World) (x : Session) : Cmd Session → Type 0 where
  chunk : (b : Bytes) → x.phase ≡ collecting → Due s c w x (serve_chunk b x)
  finish :
      (rs : List Bytes)
      → x.phase ≡ collecting
      → s.Answer w x.request rs
      → Due s c w x (serve_done c x)
  reply : (k : ℕ) → x.phase ≡ replying k → Due s c w x (serve_reply k x)

-- The turns of the event loop: a call of reqReply, or something that is due at one of the objects.
pub data Turn (s : Service) (c : ServerClass) (t : Sessions) : Sessions → Type 0 where
  fresh : Turn s c t (record t { at = set t.at t.count (some opened); count = suc t.count })
  serve :
      (i : ℕ) {x x' : Session} {w : World} {run : Cmd Session}
      → t.at i ≡ some x
      → Due s c t.memory x run
      → run t.memory ≡ ok x' w
      → Turn s c t (put i x' w t)

pub data Reach (s : Service) (c : ServerClass) (w : World) : Sessions → Type 0 where
  started : Reach s c w (no_sessions w)
  next : {t t' : Sessions} → Reach s c w t → Turn s c t t' → Reach s c w t'

-- Turns of one object alone.
pub data Alone (s : Service) (c : ServerClass) (i : ℕ) (t : Sessions) : Sessions → Type 0 where
  nothing : Alone s c i t t
  one_more :
      {u : Sessions} {x x' : Session} {w : World} {run : Cmd Session}
      → Alone s c i t u
      → u.at i ≡ some x
      → Due s c u.memory x run
      → run u.memory ≡ ok x' w
      → Alone s c i t (put i x' w u)
