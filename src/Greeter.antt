-- ===== src/Greeter.antt =====
-- transport_hello_world/grpc/greeter_async_server.cc: the calls of the asynchronous server. gRPC's
-- runtime is a parameter: what it holds for a call, and the events of the completion queue.
pub mod Liveness
pub mod Safety
pub mod Stages
use rpc_transport_tests.Prelude.{
  set, ℕ, suc, ◌==◌, ◌≡◌, if◌then◌else◌, Option, none, some, List, [], ◌∷◌, ◌++◌, codes,
}
use rpc_transport_tests.Memory.{Bytes}

-- ServerImpl::CallData::CallStatus
pub data CallStatus : Type 0 where
  create process finish : CallStatus

-- ServerImpl::CallData: the status, the name in `request_`, and the message in `reply_`.
pub record CallData : Type 0 where
  pub status : CallStatus
  pub name : Bytes
  pub message : Bytes

-- What the runtime holds for a tag: a wish for a request, an event in the queue, or a reply that
-- is on its way.
pub data Pending : Type 0 where
  awaiting event finishing : Pending

-- ServerImpl, with the CallData objects by their addresses, which serve as tags.
pub record ServerImpl : Type 0 where
  pub calls : ℕ → Option CallData
  pub count : ℕ
  pub pending : ℕ → Option Pending

abbrev pub new_call : CallData
new_call = record { status = create; name = []; message = [] }

-- `Proceed` in the state CREATE.
unfoldable pub proceed_create : ℕ → CallData → ServerImpl → ServerImpl
proceed_create tag c s = record s {
  calls = set s.calls tag (some (record c { status = process }));
  pending = set s.pending tag (some awaiting);
}

-- `new CallData(service_, cq_)`
unfoldable pub start_call : ServerImpl → ServerImpl
unfolding proceed_create
start_call s =
    proceed_create s.count new_call
      (record s { calls = set s.calls s.count (some new_call); count = suc s.count })

-- `Proceed` by the status.
unfoldable pub proceed_status : CallStatus → ℕ → CallData → ServerImpl → ServerImpl
unfolding start_call proceed_create
proceed_status create tag c s = proceed_create tag c s
proceed_status process tag c s =
    let s' = start_call s in
    record s' {
      calls =
          set s'.calls tag
            (some (record { status = finish; name = c.name; message = codes "Hello " ++ c.name }));
      pending = set s'.pending tag (some finishing);
    }
proceed_status finish tag c s = record s { calls = set s.calls tag none }

proceed_at : Option CallData → ℕ → ServerImpl → Option ServerImpl
proceed_at none tag s = none
proceed_at (some c) tag s = some (proceed_status c.status tag c s)

-- `CallData::Proceed` of the object at a tag, or `none` where none lives there.
unfoldable pub proceed : ℕ → ServerImpl → Option ServerImpl
unfolding proceed_at
proceed tag s = proceed_at (s.calls tag) tag s

-- `HandleRpcs` before its loop.
unfoldable pub initial_server : ServerImpl
unfolding start_call
initial_server = start_call (record { calls = λ tag. none; count = 0; pending = λ tag. none })

-- `Run`: the line that it writes, and the server in front of the loop, if gRPC has started it.
unfoldable pub run : List Bytes × ServerImpl
run = ((codes "Server listening on " ++ codes "0.0.0.0:50051") ∷ [], initial_server)

-- One event after another: a request arrives for a call that waits for one, a reply has been sent,
-- or the loop of `HandleRpcs` takes an event.
pub data Step : ServerImpl → ServerImpl → Type 0 where
  arrive :
      {s : ServerImpl} (tag : ℕ) (c : CallData) (name : Bytes)
      → s.calls tag ≡ some c
      → s.pending tag ≡ some awaiting
      → Step s (record s {
        calls = set s.calls tag (some (record c { name = name }));
        pending = set s.pending tag (some event);
      })
  sent :
      {s : ServerImpl} (tag : ℕ)
      → s.pending tag ≡ some finishing
      → Step s (record s { pending = set s.pending tag (some event) })
  handle :
      {s s' : ServerImpl} (tag : ℕ)
      → s.pending tag ≡ some event
      → proceed tag (record s { pending = set s.pending tag none }) ≡ some s'
      → Step s s'

pub data Reach : ServerImpl → Type 0 where
  started : Reach initial_server
  next : {s s' : ServerImpl} → Reach s → Step s s' → Reach s'
