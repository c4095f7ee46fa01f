-- ===== src/Tests/Starting.antt =====
-- The programs with their command lines, at a network of concrete peers, and requests at the limits.
use rpc_transport_tests.Prelude.{◌≡◌, ◌^◌, ◌-◌, refl, [], ◌∷◌, length, All, codes, false, arith}
use rpc_transport_tests.Prelude.Int.{ℤ, pos, negsuc}
use rpc_transport_tests.Memory.{World, ok, throw, fault, abort, bad_alloc, runtime_error, pure}
use rpc_transport_tests.Memory.Yields.{Yields}
use rpc_transport_tests.Proto.{of_hdr, r_req_hdr}
use rpc_transport_tests.Transport.{no_buffers, set_rcv_fn}
use rpc_transport_tests.Transport.Views.{stored}
use rpc_transport_tests.Transports.Restores.{Restores}
use rpc_transport_tests.Transports.Streams.{copy_bufs}
use rpc_transport_tests.Transports.Dialing.{no_stub, stub}
use rpc_transport_tests.Transports.Grpc
use rpc_transport_tests.Transports.Flatbuffers
use rpc_transport_tests.Transports.Capnproto
use rpc_transport_tests.Transports.Capnproto.Delivery.{chunks}
use rpc_transport_tests.Transports.Rsocket.Connect.{no_client}
use rpc_transport_tests.Client.Requests.{req_fill, echo_req, write_req}
use rpc_transport_tests.Client.Main.{grpc, rsocket, select_transport, select_workload, contains}
use rpc_transport_tests.Client.Connect.{Network, rt_client}
use rpc_transport_tests.Server.{server_rcv_fn}
use rpc_transport_tests.Server.Connect.{Host, rt_server}
use rpc_transport_tests.Server.Limits.{AsksFor, server_rcv_fn-read_limits}
use rpc_transport_tests.RoundTrip.{IsGood, IsSmall}
use rpc_transport_tests.RoundTrip.Programs.{rt_client-IsGood}
use rpc_transport_tests.Prelude.{ℕ, List}
use rpc_transport_tests.Prelude.Int.{pos_part}
use rpc_transport_tests.Prelude.Decimal.{to_string}
use rpc_transport_tests.Client.Report.{Reals, Accumulators, client_lines}
use rpc_transport_tests.RoundTrip.Reports.{IsCounting, Reported, rt_client-Reported}
use rpc_transport_tests.RoundTrip.Startup.{grpc_stub, starts_fail}
use rpc_transport_tests.RoundTrip.Refusals.{negative_count-abort}
use rpc_transport_tests.Tests.Fixtures.{
  codec, codec-IsCodec, machine, machine-IsMachine, empty_world, echo_flags, buf,
}
use rpc_transport_tests.Tests.Peers.{
  server_class, grpc_channel, flatbuffers_channel, capnproto_channel,
}

abbrev network : Network
network = record {
  dial_grpc = λ a. stub grpc_channel;
  dial_flatbuffers = λ a. stub flatbuffers_channel;
  dial_capnproto = λ a. capnproto_channel;
  dial_rsocket = λ a p. no_client;
}

IsSmall-3_2 : IsSmall 3 2
IsSmall-3_2 = record { block = omega arith; rounds = omega arith; bits = omega arith }

rt_client-IsGood_example :
    Yields
      (λ out w'.
        (out.0 ≡ 0)
        × (length out.1 ≡ 2)
        × All (IsGood machine machine echo_req 3 2) out.1
        × Restores empty_world w')
      (rt_client codec machine network false (codes "localhost") (pos 54321) echo_flags empty_world)
unfolding select_transport select_workload contains set_rcv_fn
rt_client-IsGood_example =
    rt_client-IsGood codec codec-IsCodec machine machine machine-IsMachine network false
      (codes "localhost") (pos 54321) echo_flags grpc echo_req 3 2 2 empty_world machine-IsMachine
      IsSmall-3_2 refl refl refl refl
      (grpc_channel, refl, λ w. (empty_world, λ cs rs status v' ran. rw ran))

-- Whole numbers in the place of doubles, and the lists of what they are given as accumulators.
abbrev whole_numbers : Reals ℕ
whole_numbers = record {
  of_int = pos_part;
  minus = λ a b. a - b;
  over = λ a b. a;
  root = λ a. a;
  s_of_ns = λ n. n;
  ms_of_ns = λ n. n;
  s_of_us = pos_part;
  ms_of_us = pos_part;
  written = to_string;
}

abbrev lists : Accumulators ℕ
lists = record {
  StatSet = List ℕ;
  empty = [];
  push = λ x xs. x ∷ xs;
  mean = λ xs. 0;
  variance = λ xs. 0;
  count = length;
}

lists-IsCounting : IsCounting lists
lists-IsCounting = record { none_yet = refl; one_more = λ x xs. omega arith }

rt_client-Reported_example :
    Yields
      (λ out w'.
        Reported whole_numbers lists machine machine echo_req 3 2 2 echo_flags out.1
          (client_lines whole_numbers lists false echo_flags out))
      (rt_client codec machine network false (codes "localhost") (pos 54321) echo_flags empty_world)
unfolding select_transport select_workload contains set_rcv_fn
rt_client-Reported_example =
    rt_client-Reported whole_numbers lists lists-IsCounting codec codec-IsCodec machine machine
      machine-IsMachine network false (codes "localhost") (pos 54321) echo_flags grpc echo_req 3 2 2
      empty_world machine-IsMachine IsSmall-3_2 refl refl refl refl
      (grpc_channel, refl, λ w. (empty_world, λ cs rs status v' ran. rw ran))

abbrev no_stubs : Network
no_stubs = record network { dial_grpc = λ a. no_stub }

abbrev busy_host : Host
busy_host = record {
  starts_grpc = λ a. false;
  starts_flatbuffers = λ a. false;
  creates_rsocket = λ a p. false;
  waits = λ kind c. pure tt;
}

starts_fail_example :
    (rt_client codec machine no_stubs false (codes "localhost") (pos 54321) echo_flags empty_world
      ≡ throw (runtime_error (codes "stub was not created")) empty_world)
    × (rt_server codec machine busy_host false false (pos 54321) (codes "rsocket") empty_world
        ≡ throw (runtime_error (codes "server was not created")) empty_world)
unfolding select_transport contains
starts_fail_example =
    starts_fail codec machine machine no_stubs busy_host false (codes "localhost") (pos 54321)
      echo_flags grpc rsocket (codes "rsocket") _ empty_world empty_world refl refl (grpc_stub refl)
      refl refl

negative_count-abort_example :
    (req_fill codec machine write_req no_buffers (pos 3) (negsuc 4) empty_world
      ≡ ok no_buffers empty_world)
    × (copy_bufs no_buffers.msg.bufs empty_world ≡ ok [] empty_world)
    × (Capnproto.send_request_stream no_buffers.msg empty_world ≡ ok (chunks []) empty_world)
    × (Grpc.req_reply machine server_class [] empty_world ≡ abort)
    × (Flatbuffers.req_reply server_class [] empty_world ≡ abort)
    × (Capnproto.serve_calls server_class Capnproto.req_reply (chunks []) empty_world ≡ abort)
negative_count-abort_example =
    negative_count-abort codec machine machine write_req (pos 3) 4 empty_world server_class
      empty_world tt (omega arith) refl

-- A memory with one read request.
abbrev asking : ℤ → ℤ → World
asking size count =
    stored (codec.serialize (of_hdr (r_req_hdr (record { buf_count = count; buf_size = size }))))
      empty_world

asking_few : AsksFor codec machine (asking (pos 3) (negsuc 4)) (buf 1 6 ∷ []) (pos 3) (negsuc 4)
asking_few = record {
  head = _;
  rest = [];
  shows = (refl, refl, omega arith, omega arith, tt);
  parsed = refl;
}

asking_most :
    AsksFor codec machine
      (asking (pos 3) (pos (2 ^ 31 - 1)))
      (buf 1 6 ∷ [])
      (pos 3)
      (pos (2 ^ 31 - 1))
asking_most = record {
  head = _;
  rest = [];
  shows = (refl, refl, omega arith, omega arith, tt);
  parsed = refl;
}

asking_huge : AsksFor codec machine (asking (negsuc 4) (pos 5)) (buf 1 6 ∷ []) (negsuc 4) (pos 5)
asking_huge = record {
  head = _;
  rest = [];
  shows = (refl, refl, omega arith, omega arith, tt);
  parsed = refl;
}

server_rcv_fn-read_limits_example :
    (server_rcv_fn codec machine
        (record { bufs = buf 1 6 ∷ [] })
        no_buffers
        (asking (pos 3) (negsuc 4))
      ≡ ok no_buffers (record (asking (pos 3) (negsuc 4)) { intervals = 1 }))
    × (server_rcv_fn codec machine
          (record { bufs = buf 1 6 ∷ [] })
          no_buffers
          (asking (pos 3) (pos (2 ^ 31 - 1)))
        ≡ fault)
    × (server_rcv_fn codec machine
          (record { bufs = buf 1 6 ∷ [] })
          no_buffers
          (asking (negsuc 4) (pos 5))
        ≡ throw bad_alloc (asking (negsuc 4) (pos 5)))
server_rcv_fn-read_limits_example =
    server_rcv_fn-read_limits codec machine (asking (pos 3) (negsuc 4))
      (asking (pos 3) (pos (2 ^ 31 - 1))) (asking (negsuc 4) (pos 5)) (buf 1 6 ∷ []) (buf 1 6 ∷ [])
      (buf 1 6 ∷ []) no_buffers (pos 3) 3 4 4 (omega arith) asking_few asking_most asking_huge
