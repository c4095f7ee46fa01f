-- ===== src/Tests/Threads.antt =====
-- Two calls at a time at a server of grpc_transport.cc.
use rpc_transport_tests.Prelude.{◌≡◌, refl, set, some, [], ◌∷◌, arith}
use rpc_transport_tests.Prelude.Int.{pos}
use rpc_transport_tests.Memory.{Bytes, World, ok}
use rpc_transport_tests.Memory.Yields.{Yields}
use rpc_transport_tests.Proto.{of_hdr, w_req_hdr}
use rpc_transport_tests.Prelude.{ℕ, codes, Bool-cases, inl, inr, sym, ◌==◌}
use mathlib.Core.Option.{some-injective}
use rpc_transport_tests.Transports.Restores.{Restores}
use rpc_transport_tests.Transports.Grpc.Sessions.Restored.{Reach-Restores}
use rpc_transport_tests.Memory.{free}
use rpc_transport_tests.Machine.{unlogged}
use rpc_transport_tests.Transports.Streams.{release, no_buffers-Holds}
use rpc_transport_tests.Transport.{no_buffers, push_string, read_buf, call_rcv_fn, ServerClass}
use rpc_transport_tests.Transport.Contracts.{Service}
use rpc_transport_tests.Transport.Views.{push_string-Appends}
use rpc_transport_tests.Transports.Grpc.{read_requests}
use rpc_transport_tests.Transports.Grpc.Sessions.{returned, write, write_turn}
use rpc_transport_tests.Transport.Views.{Holds, pushed, stored, push_string-eq-pushed}
use rpc_transport_tests.Transports.Streams.{receive}
use rpc_transport_tests.Transports.Grpc.Unlogged.{read_requests-receive}
use rpc_transport_tests.Transports.Grpc.Sessions.{
  reading, Handler, entered, read_turn, call_turn, Handlers, no_handlers, put, read, call, enter,
  go, Reach, started, next,
}
use rpc_transport_tests.Transports.Grpc.Sessions.Turns.{Fits}
use rpc_transport_tests.Transports.Grpc.Sessions.Isolation.{Turn-Fits}
use rpc_transport_tests.Server.Answers.{acknowledged}
use rpc_transport_tests.Server.Replies.Contents.{write_answer}
use rpc_transport_tests.Tests.Fixtures.{codec, machine, empty_world}
use rpc_transport_tests.Tests.Peers.{service, server_class}

abbrev asked : Bytes
asked = codec.serialize (of_hdr (w_req_hdr (record { buf_count = pos 1; buf_size = pos 2 })))

-- A call after its first string.
abbrev has_read : Bytes → World → Handler
has_read s w = record {
  rcv = pushed s no_buffers w;
  snd = no_buffers;
  phase = reading;
  request = s ∷ [];
  written = [];
}

read_turn_first :
    (s : Bytes) (w : World) → read_turn machine s entered w ≡ ok (has_read s w) (stored s w)
unfolding read_turn receive
read_turn_first s w =
    rw (read_requests-receive machine (s ∷ []) no_buffers w, push_string-eq-pushed) refl

-- Two calls, and a string for each, the second's first.
abbrev two_entered : Handlers
two_entered = record {
  at = set (set (no_handlers empty_world).at 0 (some entered)) 1 (some entered);
  count = 2;
  memory = empty_world;
}

abbrev later_world : World
later_world = stored (7 ∷ 7 ∷ []) empty_world

abbrev two_calls : Handlers
two_calls =
    put 0 (has_read asked later_world) (stored asked later_world)
      (put 1 (has_read (7 ∷ 7 ∷ []) empty_world) later_world two_entered)

two_calls-Reach : Reach machine service server_class empty_world two_calls
two_calls-Reach =
    next
      (next (next (next started enter) enter)
        (go 1 {x = entered} refl (read (7 ∷ 7 ∷ []) refl) (read_turn_first _ empty_world)))
      (go 0 {x = entered} refl (read asked refl) (read_turn_first _ later_world))

Turn-Fits_example :
    Fits service (Holds two_calls.memory) (has_read asked later_world) reading
    × Yields
        (λ x' w'.
          Fits service (Holds w') x' x'.phase
          × Fits service (Holds w') (has_read (7 ∷ 7 ∷ []) empty_world) reading)
        (call_turn server_class (has_read asked later_world) two_calls.memory)
Turn-Fits_example =
    Turn-Fits machine service server_class empty_world two_calls 0 1 (has_read asked later_world)
      (has_read (7 ∷ 7 ∷ []) empty_world) (call_turn server_class (has_read asked later_world)) refl
      two_calls-Reach refl refl (omega arith)
      (call (write_answer codec machine) refl
        (acknowledged (record { buf_count = pos 1; buf_size = pos 2 }) refl))

-- A service that answers everything with one string.
abbrev agreeing : Service
agreeing = record {
  fn = λ m rsp. push_string (codes "ok") rsp;
  Answer = λ w cs rs. rs ≡ codes "ok" ∷ [];
  quiet = λ w w' cs rs q a. a;
  answers = λ w cs rs bs a s.
      rw a (push_string-Appends (codes "ok") no_buffers [] w (no_buffers-Holds w));
}

abbrev agreeing_class : ServerClass
agreeing_class = record { rcv_fn = some agreeing.fn }

-- Two calls that return, with their turns interleaved.
abbrev Turned : Handlers → Type 0
Turned t = Reach (unlogged machine) agreeing agreeing_class empty_world t

calls_return :
    (t : Handlers) × Turned t × ((i : ℕ) (x : Handler) → t.at i ≡ some x → x.phase ≡ returned)
unfolding read_turn call_turn write_turn read_requests push_string release free read_buf call_rcv_fn
calls_return = (
  _,
  next
      (next
        (next
          (next
            (next
              (next
                (next
                  (next (next (next started enter) (go 0 refl (read (codes "a") refl) refl)) enter)
                  (go 1 refl (read (codes "b") refl) refl))
                (go 0 refl (call _ refl refl) refl))
              (go 1 refl (call _ refl refl) refl))
            (go 0 refl (write 0 refl) refl))
          (go 0 refl (write 1 refl) refl))
        (go 1 refl (write 0 refl) refl))
      (go 1 refl (write 1 refl) refl),
  λ i x there. elim (Bool-cases (1 == i)) [
    | inl e ↦ let same = some-injective _ x (rw e at there) in rw (sym same) refl
    | inr e ↦ elim (Bool-cases (0 == i)) [
      | inl z ↦ let same = some-injective _ x (rw (e, z) at there) in rw (sym same) refl
      | inr z ↦ absurd (cc (rw (e, z) at there))
    ]
  ],
)

Reach-Restores_example : Restores empty_world calls_return.0.memory
Reach-Restores_example =
    Reach-Restores (unlogged machine) agreeing agreeing_class empty_world calls_return.0 refl
      calls_return.1 calls_return.2
