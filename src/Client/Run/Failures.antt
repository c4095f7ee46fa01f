-- ===== src/Client/Run/Failures.antt =====
-- The operations of rt_client.cc over transports that bring no reply, and at sizes whose bits an
-- `int` does not hold.
use rpc_transport_tests.Prelude.{ℕ, suc, ◌+◌, ◌*◌, ◌<◌, ◌≤◌, ◌^◌, ◌≡◌, refl, [], ◌∷◌, arith, codes}
use rpc_transport_tests.Prelude.Int.{ℤ, pos}
use rpc_transport_tests.Memory.{Msg, World, ok, throw, fault, runtime_error, mul_int}
use rpc_transport_tests.Memory.Ints.{mul_int-ok, mul_int-fault}
use rpc_transport_tests.Memory.Yields
use rpc_transport_tests.Memory.Yields.{Yields, yields}
use rpc_transport_tests.Proto.{Codec}
use rpc_transport_tests.Machine.{Machine, when_verbose, stop_clock}
use rpc_transport_tests.Transport.{Buffers, no_buffers}
use rpc_transport_tests.Transport.Contracts.{SendReq}
use rpc_transport_tests.Transport.Views.{Keeps, Shows, Shows-Keeps}
use rpc_transport_tests.Transports.Null
use rpc_transport_tests.Transports.Rsocket
use rpc_transport_tests.Transports.Rsocket.Lifetimes
use rpc_transport_tests.Transports.Streams.{no_buffers-Holds}
use rpc_transport_tests.Client.Requests.{ReqCreator, req_fill}
use rpc_transport_tests.Client.Requests.Contents.{request, req_fill-request}
use rpc_transport_tests.Client.Validator.{ReplyValidator}
use rpc_transport_tests.Client.Run.{get_remote_process_time_us, log_first, run_op, Sizes, Sample}
use rpc_transport_tests.Client.Run.Success.{
  IsReplied, request_logged, get_remote_process_time_us-eq,
}

-- A transport whose sends, where they end, leave the reply as it was.
IsMute : SendReq → Type 0
IsMute send =
    (request : Msg) (reply reply' : Buffers) (w w' : World)
    → send request reply w ≡ ok reply' w'
    → reply' ≡ reply

module _ (codec : Codec) (env : Machine) where
  get_remote_process_time_us_empty :
      (w : World)
      → get_remote_process_time_us codec no_buffers.msg w
        ≡ throw (runtime_error (codes "empty reply")) w
  unfolding get_remote_process_time_us
  get_remote_process_time_us_empty w = refl

  not_timed :
      (reply : Buffers) (us : ℕ) (w u : World)
      → reply ≡ no_buffers
      → ¬ (get_remote_process_time_us codec reply.msg w ≡ ok us u)
  not_timed reply us w u e got = cc (e, got, get_remote_process_time_us_empty w)

  run_op_mute :
      (send : SendReq) (creator : ReqCreator) (v : ReplyValidator) (f : Sizes) (w : World)
      (s : Sample) (w' : World)
      → IsMute send
      → ¬ (run_op codec env send creator v f w ≡ ok s w')
  unfolding run_op IsMute
  run_op_mute send creator v f w s w' mute ran =
      let (req, u, _, r1) =
        Yields.resume-ok (req_fill codec env creator no_buffers f.block_size f.block_count w) _ s w'
          ran in
      let (_, u1, _, r1') = Yields.resume-ok (when_verbose env (log_first req.msg) u) _ s w' r1 in
      let (reply, u2, sent, r2) = Yields.resume-ok (send req.msg no_buffers u1) _ s w' r1' in
      let (ns, u3, _, r3) = Yields.resume-ok (stop_clock env u2) _ s w' r2 in
      let (bytes, u4, _, r4) = Yields.resume-ok (mul_int f.block_size f.block_count u3) _ s w' r3 in
      let (us, u5, got, _) =
        Yields.resume-ok (get_remote_process_time_us codec reply.msg u4) _ s w' r4 in
      not_timed reply us u4 u5 (mute req.msg no_buffers reply u1 u2 sent) got

  run_op-rsocket :
      (call : Rsocket.Channel) (creator : ReqCreator) (v : ReplyValidator) (f : Sizes) (w : World)
      (s : Sample) (w' : World)
      → ¬ (run_op codec env (Rsocket.send_req call) creator v f w ≡ ok s w')
  unfolding IsMute
  run_op-rsocket call creator v f w s w' =
      run_op_mute (Rsocket.send_req call) creator v f w s w' (Lifetimes.send_req_mute call)

  run_op-null :
      (creator : ReqCreator) (v : ReplyValidator) (size count : ℕ) (ops : ℤ) (w : World)
      → count + 1 < 2 ^ 31
      → size * count < 2 ^ 31
      → (w' : World) × (run_op codec env Null.send_req creator v
            (record { block_size = pos size; block_count = pos count; op_count = ops })
            w
          ≡ throw (runtime_error (codes "empty reply")) w')
  unfolding run_op stop_clock Null.send_req
  run_op-null creator v size count ops w rounds fits =
      let (req, u, filled, (made, _)) = Yields.ended (
        req_fill-request codec env creator size count no_buffers [] w rounds
          (no_buffers-Holds w)) in
      (
        record u { intervals = suc u.intervals },
        rw (
          filled,
          request_logged codec env creator w.draws size count req.msg.bufs u made.shows,
          mul_int-ok size count (record u { intervals = suc u.intervals }) fits,
          get_remote_process_time_us_empty (record u { intervals = suc u.intervals }),
        ),
      )

  -- Over the null transport an operation whose sizes fit throws `empty reply`; and over RSocket no
  -- operation ends with a sample, whatever payloads come before `sendReq` returns.
  pub run_op_no_reply :
      (call : Rsocket.Channel) (creator : ReqCreator) (v : ReplyValidator) (size count : ℕ)
      (ops : ℤ) (f : Sizes) (s : Sample) (w w' : World)
      → count + 1 < 2 ^ 31
      → size * count < 2 ^ 31
      → ((u : World) × (run_op codec env Null.send_req creator v
              (record { block_size = pos size; block_count = pos count; op_count = ops })
              w
            ≡ throw (runtime_error (codes "empty reply")) u))
        × (¬ (run_op codec env (Rsocket.send_req call) creator v f w ≡ ok s w'))
  run_op_no_reply call creator v size count ops f s w w' rounds fits =
      (run_op-null creator v size count ops w rounds fits, run_op-rsocket call creator v f w s w')

  -- Where the bytes of the payload fit an int and its bits do not, an operation over any transport
  -- that brings an acceptable reply is undefined behaviour.
  pub run_op_overflow :
      (send : SendReq) (creator : ReqCreator) (v : ReplyValidator) (size count : ℕ) (ops : ℤ)
      (w : World)
      → count + 1 < 2 ^ 31
      → size * count < 2 ^ 31
      → 2 ^ 31 ≤ 8 * (size * count)
      → ((u : World) → IsReplied codec env send v (request codec env creator w.draws size count) u)
      → run_op codec env send creator v
          (record { block_size = pos size; block_count = pos count; op_count = ops })
          w
        ≡ fault
  unfolding run_op stop_clock
  run_op_overflow send creator v size count ops w rounds fits over replied =
      let (req, u, filled, (sent, _)) = Yields.ended (
        req_fill-request codec env creator size count no_buffers [] w rounds
          (no_buffers-Holds w)) in
      let a = replied u in
      let (reply, x, arrived, (came, _)) =
        Yields.ended (a.delivers req.msg.bufs no_buffers [] sent.shows (no_buffers-Holds u)) in
      let y : World = record x { intervals = suc x.intervals } in
      let later : Keeps x y = record { grows = omega arith; same = λ p le. refl } in
      let shown : Shows y reply.msg.bufs (a.head ∷ a.rest) =
        Shows-Keeps reply.msg.bufs _ later came.shows in
      rw (
        filled,
        request_logged codec env creator w.draws size count req.msg.bufs u sent.shows,
        arrived,
        mul_int-ok size count y fits,
        get_remote_process_time_us-eq codec reply.msg.bufs a.head a.rest a.hdr a.us y shown a.parsed
            a.timed,
        mul_int-fault 8 (size * count) y over,
      )
