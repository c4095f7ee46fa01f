-- ===== src/Hello/AsyncClient.antt =====
-- transport_hello_world/grpc/greeter_async_client.cc.
use rpc_transport_tests.Prelude.{ℕ, Bool, ◌==◌, if◌then◌else◌, List, [], ◌∷◌, ◌++◌, codes}
use rpc_transport_tests.Memory.{Bytes}
use rpc_transport_tests.Transports.Grpc.{Status, status_ok, status_error}

-- What `Next` gives, with the status and the message that the runtime has written by then.
pub record Completion : Type 0 where
  pub next : Bool
  pub tag : ℕ
  pub succeeded : Bool
  pub status : Status
  pub message : Bytes

-- What is returned, or an assertion that does not hold.
pub data Asserted (A : Type 0) : Type 0 where
  returned : A → Asserted A
  asserted : Asserted A

abbrev pub act_upon : Status → Bytes → Bytes
act_upon status_ok message = message
act_upon (status_error code text) message = codes "RPC failed"

-- `GreeterClient::SayHello`, for what becomes of a request.
unfoldable pub say_hello : (Bytes → Completion) → Bytes → Asserted Bytes
say_hello run user =
    let c = run user in
    if c.next
    then (if c.tag == 1
        then (if c.succeeded then returned (act_upon c.status c.message) else asserted)
        else asserted)
    else asserted

-- `main`: the lines that it writes.
unfoldable pub greeter_async_client_main : (Bytes → Completion) → Asserted (List Bytes)
greeter_async_client_main run = elim (say_hello run (codes "world")) [
  | returned reply ↦ returned ((codes "Greeter received: " ++ reply) ∷ [])
  | asserted ↦ asserted
]
