-- ===== src/Client/Main.antt =====
-- `main` of rt_client.cc: the choice of the transport and of the workload, and the loop of
-- operations. gflags, glog and libsodium's start are parameters; what is printed is in Report.
pub mod Choice
use rpc_transport_tests.Prelude.{
  starts_with, ℕ, Bool, true, false, ◌&&◌, ◌||◌, ◌==◌, if◌then◌else◌, Option, none, some, List, [],
  ◌∷◌, codes,
}
use rpc_transport_tests.Memory.{Bytes, Cmd, pure, ◌>>=◌, resume}
use rpc_transport_tests.Proto.{Codec}
use rpc_transport_tests.Machine.{Machine}
use rpc_transport_tests.Transport.Contracts.{SendReq}
use rpc_transport_tests.Client.Requests.{ReqCreator, write_req, read_req, echo_req}
use rpc_transport_tests.Client.Validator.{ReplyValidator, any_reply, echo_reply}
use rpc_transport_tests.Client.Run.{Sizes, Sample, run_ops}

-- `s.find(p) != std::string::npos` of the standard library.
unfoldable pub contains : Bytes → Bytes → Bool
contains [] p = starts_with [] p
contains (c ∷ s) p = starts_with (c ∷ s) p || contains s p

-- The transports. `-DENABLE_FLATBUFFERS` builds the first two only, and else all but the second.
pub data TransportKind : Type 0 where
  null flatbuffers grpc rsocket capnproto : TransportKind

unfoldable pub select_transport : Bool → Bytes → Option TransportKind
unfolding contains
select_transport enable_flatbuffers flag =
    if contains flag (codes "null")
    then some null
    else if enable_flatbuffers
    then (if contains flag (codes "flatbuffers") then some flatbuffers else none)
    else if contains flag (codes "grpc")
    then some grpc
    else if contains flag (codes "rsocket")
    then some rsocket
    else if contains flag (codes "capnproto")
    then some capnproto
    else none

abbrev pub Workload : Type 0
Workload = ReqCreator × ReplyValidator

unfoldable pub select_workload : Bytes → Option Workload
unfolding contains
select_workload flag =
    if contains flag (codes "write")
    then some (write_req, any_reply)
    else if contains flag (codes "read")
    then some (read_req, any_reply)
    else if contains flag (codes "echo")
    then some (echo_req, echo_reply)
    else none

-- The command line, with what `sodium_init` gives: a failure or not.
pub record Flags : Type 0 where
  pub transport : Bytes
  pub workload : Bytes
  pub sizes : Sizes
  pub sodium_fails : Bool

-- The exit status, and the samples behind the statistics that are printed.
abbrev pub Outcome : Type 0
Outcome = ℕ × List Sample

module _ (codec : Codec) (env : Machine) (connect : TransportKind → Cmd SendReq) where
  run_workload : Sizes → Option Workload → SendReq → Cmd Outcome
  run_workload f none send = pure (1, [])
  run_workload f (some (creator, validator)) send = do
    samples ← run_ops codec env send creator validator f
    pure (0, samples)

  -- The client is made, and so connected, before the workload is looked at.
  run_transport : Flags → Option TransportKind → Cmd Outcome
  unfolding select_workload run_workload
  run_transport f none = pure (1, [])
  run_transport f (some kind) = do
    send ← connect kind
    run_workload f.sizes (select_workload f.workload) send

  unfoldable pub client_main : Bool → Flags → Cmd Outcome
  unfolding run_transport select_transport
  client_main enable_flatbuffers f =
      if f.sodium_fails
      then pure (1, [])
      else run_transport f (select_transport enable_flatbuffers f.transport)
