-- ===== src/Transports/Grpc/Sessions.antt =====
-- The server of grpc_transport.cc with several calls at a time: the threads of gRPC run ReqReply for
-- each of them, in one memory. A turn of a thread is a round of the loop over `Read`, the call of the
-- receive function, a round of the loop over `Write`, or the end of ReqReply.
pub mod Ownership
pub mod Turns
pub mod Isolation
pub mod Leaks
pub mod Restored
use rpc_transport_tests.Prelude.{
  set, ℕ, suc, ◌+◌, ◌==◌, ◌≡◌, if◌then◌else◌, Option, none, some, List, [], ◌∷◌, ◌++◌, length,
  get_elem?,
}
use rpc_transport_tests.Memory.{
  Bytes, World, Cmd, pure, ok, ◌>>=◌, ◌>>◌, resume, or_abort, or_fault,
}
use rpc_transport_tests.Machine.{Machine}
use rpc_transport_tests.Transport.{Buffers, no_buffers, ServerClass, call_rcv_fn, read_buf}
use rpc_transport_tests.Transport.Contracts.{Service}
use rpc_transport_tests.Transports.Streams.{release}
use rpc_transport_tests.Transports.Grpc.{read_requests}

-- Where a call of ReqReply is: in its first loop, in front of the write of the buffer at an index,
-- or behind its return.
pub data Phase : Type 0 where
  reading returned : Phase
  writing : ℕ → Phase

-- A call of ReqReply, with the strings that came for it and those that it wrote.
pub record Handler : Type 0 where
  pub rcv : Buffers
  pub snd : Buffers
  pub phase : Phase
  pub request : List Bytes
  pub written : List Bytes

abbrev pub entered : Handler
entered = record { rcv = no_buffers; snd = no_buffers; phase = reading; request = []; written = [] }

-- `stream->Read(&req)` and the body of that loop.
unfoldable pub read_turn : Machine → Bytes → Handler → Cmd Handler
read_turn env s x = do
  rcv ← read_requests env (s ∷ []) x.rcv
  pure (record x { rcv = rcv; request = x.request ++ (s ∷ []) })

-- `rcvFn(rcvMsg, sndMsg, rspData)`, behind the last `Read`.
unfoldable pub call_turn : ServerClass → Handler → Cmd Handler
call_turn c x = do
  snd ← (λ w. or_abort (call_rcv_fn c x.rcv.msg x.snd w))
  pure (record x { snd = snd; phase = writing 0 })

-- The end of ReqReply and of its containers.
return_turn : Handler → Cmd Handler
return_turn x = do
  release x.snd.container
  release x.rcv.container
  pure (record x { rcv = no_buffers; snd = no_buffers; phase = returned })

-- `stream->Write(rsp)` for the buffer at an index, or the return.
unfoldable pub write_turn : ℕ → Handler → Cmd Handler
unfolding return_turn
write_turn i x = if i == length x.snd.msg.bufs then return_turn x else (do
  b ← or_fault (get_elem? x.snd.msg.bufs i)
  s ← read_buf b
  pure (record x { phase = writing (i + 1); written = x.written ++ (s ∷ []) }))

-- The calls by their numbers, and the memory of the process.
pub record Handlers : Type 0 where
  pub at : ℕ → Option Handler
  pub count : ℕ
  pub memory : World

abbrev pub no_handlers : World → Handlers
no_handlers w = record { at = λ i. none; count = 0; memory = w }

abbrev pub put : ℕ → Handler → World → Handlers → Handlers
put i x w t = record t { at = set t.at i (some x); memory = w }

-- What a call may do next. The service answers the request that came.
pub data Due (env : Machine) (s : Service) (c : ServerClass) (w : World) (x : Handler)
    : Cmd Handler → Type 0 where
  read : (b : Bytes) → x.phase ≡ reading → Due env s c w x (read_turn env b x)
  call :
      (rs : List Bytes)
      → x.phase ≡ reading
      → s.Answer w x.request rs
      → Due env s c w x (call_turn c x)
  write : (k : ℕ) → x.phase ≡ writing k → Due env s c w x (write_turn k x)

-- The turns of the threads, in any order: a call comes in, or goes on.
pub data Turn (env : Machine) (s : Service) (c : ServerClass) (t : Handlers)
    : Handlers → Type 0 where
  enter : Turn env s c t (record t { at = set t.at t.count (some entered); count = suc t.count })
  go :
      (i : ℕ) {x x' : Handler} {w : World} {run : Cmd Handler}
      → t.at i ≡ some x
      → Due env s c t.memory x run
      → run t.memory ≡ ok x' w
      → Turn env s c t (put i x' w t)

pub data Reach (env : Machine) (s : Service) (c : ServerClass) (w : World) : Handlers → Type 0 where
  started : Reach env s c w (no_handlers w)
  next : {t t' : Handlers} → Reach env s c w t → Turn env s c t t' → Reach env s c w t'
