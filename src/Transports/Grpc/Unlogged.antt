-- ===== src/Transports/Grpc/Unlogged.antt =====
-- The loops of grpc_transport.cc do the same with the log lines and without them.
use mathlib.Core.Path.{fun_ext}
use rpc_transport_tests.Prelude.{
  suc, ltb, back-append, Bool-cases, inl, inr, length, ◌≡◌, refl, List, [], ◌∷◌, arith,
}
use rpc_transport_tests.Memory.{Bytes, DataBuf, World, ok}
use rpc_transport_tests.Machine.{Machine, unlogged, when_verbose-ok}
use rpc_transport_tests.Transport.{Buffers, ServerClass}
use rpc_transport_tests.Transport.Hex.{log_bytes-ok, log_then_read}
use rpc_transport_tests.Transport.LogLines.{log_back-pushed}
use rpc_transport_tests.Transport.Views.{pushed, stored, push_string-eq-pushed}
use rpc_transport_tests.Transports.Streams.{receive, copy_bufs}
use rpc_transport_tests.Transports.Grpc.{
  Channel, log_received, read_requests, write_requests, req_reply, send_req,
}

log_received-pushed :
    (s : Bytes) (out : Buffers) (w : World)
    → log_received (pushed s out w) (stored s w) ≡ ok tt (stored s w)
unfolding log_received
log_received-pushed s out w =
    rw (back-append out.msg.bufs (record { addr = suc w.count; len = length s }))
      (elim (Bool-cases (ltb (length s) 100)) [
        | inl short ↦ rw (
          short,
          log_bytes-ok (suc w.count) 1 s (stored s w) (ground arith) (omega arith) (omega arith),
          log_back-pushed s out w,
        )
        | inr long ↦ rw long
      ])

module _ (env : Machine) where
  pub read_requests-receive :
      (ss : List Bytes) (out : Buffers) (w : World) → read_requests env ss out w ≡ receive ss out w
  unfolding read_requests receive
  read_requests-receive [] out w = refl
  read_requests-receive (s ∷ ss) out w = rw (
    push_string-eq-pushed,
    when_verbose-ok env _ _ (λ on. log_received-pushed s out w),
    read_requests-receive ss (pushed s out w) (stored s w),
  )

  pub write_requests-copy_bufs : (bs : List DataBuf) → write_requests env bs ≡ copy_bufs bs
  unfolding write_requests copy_bufs
  write_requests-copy_bufs [] = refl
  write_requests-copy_bufs (b ∷ bs) =
      fun_ext λ w. rw (write_requests-copy_bufs bs) (log_then_read env b _ w)

module _ (env : Machine) where
  -- The handler and the client of gRPC, whatever they log.
  pub req_reply-unlogged :
      (c : ServerClass) (reqs : List Bytes) (w : World)
      → req_reply env c reqs w ≡ req_reply (unlogged env) c reqs w
  unfolding req_reply
  req_reply-unlogged c reqs w =
      rw (read_requests-receive env reqs, read_requests-receive (unlogged env) reqs)

  pub send_req-unlogged : (call : Channel) → send_req env call ≡ send_req (unlogged env) call
  unfolding send_req
  send_req-unlogged call = fun_ext λ request. fun_ext λ reply. rw (
    write_requests-copy_bufs env request.bufs,
    write_requests-copy_bufs (unlogged env) request.bufs,
  )
