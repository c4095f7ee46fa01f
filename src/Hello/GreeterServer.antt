-- ===== src/Hello/GreeterServer.antt =====
-- transport_hello_world/grpc/greeter_server.cc.
use rpc_transport_tests.Prelude.{Bool, if◌then◌else◌, List, [], ◌∷◌, ◌++◌, codes}
use rpc_transport_tests.Memory.{Bytes}
use rpc_transport_tests.Transports.Grpc.{Status, status_ok}

-- `GreeterServiceImpl::SayHello`: the status, and the message of the reply.
unfoldable pub say_hello : Bytes → Status × Bytes
say_hello name = (status_ok, codes "Hello " ++ name)

-- A server that waits, with the lines that it wrote, or one that is used although it is `nullptr`.
pub data ServerRun : Type 0 where
  waits undefined : List Bytes → ServerRun

-- `RunServer`, for what `BuildAndStart` does at an address.
unfoldable pub run_server : (Bytes → Bool) → ServerRun
run_server starts =
    let lines = (codes "Server listening on " ++ codes "0.0.0.0:50051") ∷ [] in
    if starts (codes "0.0.0.0:50051") then waits lines else undefined lines
