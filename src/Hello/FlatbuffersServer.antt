-- ===== src/Hello/FlatbuffersServer.antt =====
-- transport_hello_world/flatbuffers/server.cpp, with the tables of greeter.fbs. A field that a
-- table does not have is `nullptr`; `none` in place of a result stands for its use, which is
-- undefined.
use rpc_transport_tests.Prelude.{
  ℕ, zero, suc, Bool, if◌then◌else◌, Option, some, List, [], ◌∷◌, ◌++◌, codes,
}
use mathlib.Core.Option as Option
use rpc_transport_tests.Prelude.Int.{ℤ, pos_part}
use rpc_transport_tests.Memory.{Bytes}
use rpc_transport_tests.Transports.Grpc.{Status, status_ok}
use rpc_transport_tests.Hello.GreeterServer.{ServerRun, waits, undefined}

pub record HelloRequest : Type 0 where
  pub name : Option Bytes

pub record HelloReply : Type 0 where
  pub message : Option Bytes

pub record ManyHellosRequest : Type 0 where
  pub name : Option Bytes
  pub num_greetings : ℤ

-- `GreeterServiceImpl::SayHello`
unfoldable pub say_hello : HelloRequest → Option (Status × HelloReply)
say_hello request =
    Option.map (λ name. (status_ok, record { message = some (codes "Hello, " ++ name) }))
      request.name

-- The loop of `SayManyHellos`, with the rounds that are left: the replies that it writes.
unfoldable pub write_hellos : ℕ → Bytes → List HelloReply
write_hellos zero name = []
write_hellos (suc k) name =
    record { message = some (codes "Many hellos, " ++ name) } ∷ write_hellos k name

-- `GreeterServiceImpl::SayManyHellos`
unfoldable pub say_many_hellos : ManyHellosRequest → Option (List HelloReply × Status)
unfolding write_hellos
say_many_hellos request =
    Option.map (λ name. (write_hellos (pos_part request.num_greetings) name, status_ok))
      request.name

-- `RunServer`, for what `BuildAndStart` does at an address.
unfoldable pub run_server : (Bytes → Bool) → ServerRun
run_server starts =
    let lines = (codes "Server listening on " ++ codes "0.0.0.0:50051") ∷ [] in
    if starts (codes "0.0.0.0:50051") then waits lines else undefined lines
