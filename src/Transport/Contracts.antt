-- ===== src/Transport/Contracts.antt =====
-- The two sides of a transport: what the receive function of a server promises, and what the
-- `sendReq` of a client does when it gets an answer.
use rpc_transport_tests.Prelude.{◌≡◌, List, [], some}
use rpc_transport_tests.Memory.{Bytes, DataBuf, Msg, World, Cmd}
use rpc_transport_tests.Transport.{Buffers, no_buffers, RcvFn, ServerClass}
use rpc_transport_tests.Transport.Views.{Shows, Holds, Keeps, Appends}

-- All objects are kept, and nothing is taken from the machine.
pub record Quiet (w w' : World) : Type 0 where
  pub keeps : Keeps w w'
  pub draws : w'.draws ≡ w.draws
  pub intervals : w'.intervals ≡ w.intervals

-- A receive function with a description of its answers. Every transport calls it with an empty reply.
pub record Service : Type 1 where
  pub fn : RcvFn
  pub Answer : World → List Bytes → List Bytes → Type 0
  pub quiet : (w w' : World) (cs rs : List Bytes) → Quiet w w' → Answer w cs rs → Answer w' cs rs
  pub answers :
      (w : World) (cs rs : List Bytes) (bs : List DataBuf)
      → Answer w cs rs
      → Shows w bs cs
      → Appends w no_buffers [] rs (fn (record { bufs = bs }) no_buffers w)

-- A class whose receive function is the service's.
abbrev pub Offers : ServerClass → Service → Type 0
Offers c s = c.rcv_fn ≡ some s.fn

-- The `sendReq` of a client: from the request and the reply so far to the reply.
abbrev pub SendReq : Type 0
SendReq = Msg → Buffers → Cmd Buffers

-- Sending the strings `cs` from memory `w` brings the strings `rs`, and loses no object there.
abbrev pub Delivers : SendReq → World → List Bytes → List Bytes → Type 0
Delivers send w cs rs =
    (bs : List DataBuf) (reply : Buffers) (before : List Bytes)
    → Shows w bs cs
    → Holds w reply before
    → Appends w reply before rs (send (record { bufs = bs }) reply w)

-- Whenever the client sends, the service answers, in some memory of its own.
abbrev pub IsReached : Service → SendReq → Type 0
IsReached s send =
    (w : World) → (v : World) × ((cs rs : List Bytes) → s.Answer v cs rs → Delivers send w cs rs)
