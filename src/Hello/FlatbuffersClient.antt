-- ===== src/Hello/FlatbuffersClient.antt =====
-- transport_hello_world/flatbuffers/client.cpp. `none` in place of a result stands for the use of
-- a field that a reply does not have, which is undefined.
use rpc_transport_tests.Prelude.{Option, none, some, List, [], ◌∷◌, ◌++◌, map, codes}
use mathlib.Core.Option as Option
use rpc_transport_tests.Prelude.Int.{ℤ, pos}
use rpc_transport_tests.Prelude.Decimal.{to_string}
use rpc_transport_tests.Memory.{Bytes}
use rpc_transport_tests.Transports.Grpc.{Status, status_ok, status_error}
use rpc_transport_tests.Hello.FlatbuffersServer.{HelloRequest, HelloReply, ManyHellosRequest}

-- What the stub gives for a request: for the stream, what `Read` gives and the status of `Finish`.
pub record Stub : Type 0 where
  pub hello : HelloRequest → Status × HelloReply
  pub many_hellos : ManyHellosRequest → List HelloReply × Status

-- What is returned for a status and a reply, and the lines that are written.
act_upon : Status × HelloReply → Option (Bytes × List Bytes)
act_upon (status_ok, reply) = Option.map (λ message. (message, [])) reply.message
act_upon (status_error code text, reply) =
    some (codes "RPC failed", (to_string code ++ (codes ": " ++ text)) ∷ [])

-- `GreeterClient::SayHello`
unfoldable pub say_hello : Stub → Bytes → Option (Bytes × List Bytes)
unfolding act_upon
say_hello stub name = act_upon (stub.hello (record { name = some name }))

-- The messages of the replies, in order.
unfoldable pub messages : List HelloReply → Option (List Bytes)
messages [] = some []
messages (r ∷ rs) =
    let rest = messages rs in
    elim r.message [ none ↦ none | some m ↦ Option.map (λ ms. m ∷ ms) rest ]

-- What `SayManyHellos` does in turn: a call of its callback, or a line that it writes.
pub data Report : Type 0 where
  called wrote : Bytes → Report

failures : Status → List Report
failures status_ok = []
failures (status_error code text) =
    wrote (to_string code ++ (codes ": " ++ text)) ∷ called (codes "RPC failed") ∷ []

-- `GreeterClient::SayManyHellos`
unfoldable pub say_many_hellos : Stub → Bytes → ℤ → Option (List Report)
unfolding messages failures
say_many_hellos stub name num_greetings =
    let (replies, status) =
      stub.many_hellos (record { name = some name; num_greetings = num_greetings }) in
    Option.map (λ ms. map (λ m. called m) ms ++ failures status) (messages replies)

received : Bytes → Bytes
received m = codes "Greeter received: " ++ m

-- `main`'s callback writes what it is called with.
report_line : Report → Bytes
unfolding received
report_line (called m) = received m
report_line (wrote line) = line

-- `main`: the lines that it writes.
unfoldable pub flatbuffers_greeter_main : Stub → Option (List Bytes)
unfolding received report_line
flatbuffers_greeter_main stub = elim (say_hello stub (codes "world")) [
  | none ↦ none
  | some (message, errors) ↦
      Option.map (λ reports. errors ++ (received message ∷ map (λ r. report_line r) reports))
        (say_many_hellos stub (codes "world") (pos 10))
]
