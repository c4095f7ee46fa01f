-- ===== src/Transports/Dialing.antt =====
-- What gRPC gives a client that is made: a channel and a stub on it, or `nullptr` for one of them.
use rpc_transport_tests.Prelude.{codes}
use rpc_transport_tests.Memory.{Cmd, pure, raise, runtime_error}

pub data Dialed (A : Type 0) : Type 0 where
  no_channel no_stub : Dialed A
  stub : A → Dialed A

-- The two tests for `nullptr`.
abbrev pub require_stub : {A : Type 0} → Dialed A → Cmd A
require_stub no_channel = raise (runtime_error (codes "channel was not created"))
require_stub no_stub = raise (runtime_error (codes "stub was not created"))
require_stub (stub s) = pure s
