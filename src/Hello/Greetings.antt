-- ===== src/Hello/Greetings.antt =====
-- The greeters' clients against their servers.
use rpc_transport_tests.Prelude.{
  ℕ, zero, suc, ◌≡◌, refl, ap, true, some, List, [], ◌∷◌, ◌++◌, map, length, All, codes,
}
use mathlib.Core.List.{append-nil}
use rpc_transport_tests.Prelude.Int.{ℤ, pos_part}
use rpc_transport_tests.Memory.{Bytes}
use rpc_transport_tests.Transports.Grpc.{Status, status_ok, status_error}
use rpc_transport_tests.Hello.GreeterServer
use rpc_transport_tests.Hello.GreeterClient
use rpc_transport_tests.Hello.GreeterClient.{Stub}
use rpc_transport_tests.Hello.AsyncClient
use rpc_transport_tests.Hello.AsyncClient.{Completion, returned}
use rpc_transport_tests.Hello.FlatbuffersServer
use rpc_transport_tests.Hello.FlatbuffersServer.{
  HelloRequest, HelloReply, ManyHellosRequest, write_hellos,
}
use rpc_transport_tests.Hello.FlatbuffersClient
use rpc_transport_tests.Hello.FlatbuffersClient.{Report, called, messages}

-- The completion of a call that is finished, under the tag 1.
abbrev pub finished : Stub → Bytes → Completion
finished stub user = record {
  next = true;
  tag = 1;
  succeeded = true;
  status = (stub user).0;
  message = (stub user).1;
}

act_upon-eq : (r : Status × Bytes) → AsyncClient.act_upon r.0 r.1 ≡ (GreeterClient.act_upon r).0
act_upon-eq (status_ok, message) = refl
act_upon-eq (status_error code text, message) = refl

say_hello-eq :
    (stub : Stub) (user : Bytes)
    → AsyncClient.say_hello (finished stub) user ≡ returned (GreeterClient.say_hello stub user).0
unfolding AsyncClient.say_hello GreeterClient.say_hello
say_hello-eq stub user = ap returned (act_upon-eq (stub user))

-- The stub gives what the server answers.
pub record IsJoined (stub : FlatbuffersClient.Stub) : Type 0 where
  pub hello :
      (request : HelloRequest) (answer : Status × HelloReply)
      → FlatbuffersServer.say_hello request ≡ some answer
      → stub.hello request ≡ answer
  pub many_hellos :
      (request : ManyHellosRequest) (answer : List HelloReply × Status)
      → FlatbuffersServer.say_many_hellos request ≡ some answer
      → stub.many_hellos request ≡ answer

repeat : ℕ → Bytes → List Bytes
repeat zero m = []
repeat (suc k) m = m ∷ repeat k m

length-repeat : (k : ℕ) (m : Bytes) → length (repeat k m) ≡ k
unfolding repeat
length-repeat zero m = refl
length-repeat (suc k) m = ap suc (length-repeat k m)

repeat-All : (k : ℕ) (m : Bytes) → All (λ x. x ≡ m) (repeat k m)
unfolding repeat
repeat-All zero m = tt
repeat-All (suc k) m = (refl, repeat-All k m)

messages-write_hellos :
    (k : ℕ) (name : Bytes)
    → messages (write_hellos k name) ≡ some (repeat k (codes "Many hellos, " ++ name))
unfolding messages write_hellos repeat
messages-write_hellos zero name = refl
messages-write_hellos (suc k) name = rw (messages-write_hellos k name) refl

-- For every name: the asynchronous client returns what the synchronous one does for any call that
-- is finished; against the gRPC server that is `Hello` and the name. Where its stub gives what the
-- FlatBuffers server answers, the FlatBuffers client returns `Hello,` and the name, and its
-- callback gets as many greetings as were asked for, none for a negative number, and no error.
pub greetings :
    (call : Stub) (stub : FlatbuffersClient.Stub) (name : Bytes) (num_greetings : ℤ)
    → IsJoined stub
    → (ms : List Bytes) × (AsyncClient.say_hello (finished call) name
        ≡ returned (GreeterClient.say_hello call name).0)
      × (GreeterClient.say_hello GreeterServer.say_hello name ≡ (codes "Hello " ++ name, []))
      × (FlatbuffersClient.say_hello stub name ≡ some (codes "Hello, " ++ name, []))
      × (FlatbuffersClient.say_many_hellos stub name num_greetings ≡ some (map (λ m. called m) ms))
      × (length ms ≡ pos_part num_greetings)
      × All (λ m. m ≡ codes "Many hellos, " ++ name) ms
unfolding GreeterClient.say_hello GreeterServer.say_hello FlatbuffersClient.say_hello
    FlatbuffersClient.say_many_hellos FlatbuffersServer.say_hello FlatbuffersServer.say_many_hellos
greetings call stub name n joined =
    let hello =
      joined.hello (record { name = some name })
        (status_ok, record { message = some (codes "Hello, " ++ name) }) refl in
    let many =
      joined.many_hellos (record { name = some name; num_greetings = n })
        (write_hellos (pos_part n) name, status_ok) refl in
    (
      repeat (pos_part n) (codes "Many hellos, " ++ name),
      say_hello-eq call name,
      refl,
      rw hello refl,
      rw (many, messages-write_hellos (pos_part n) name) (ap some (append-nil _)),
      length-repeat (pos_part n) _,
      repeat-All (pos_part n) _,
    )
