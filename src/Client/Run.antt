-- ===== src/Client/Run.antt =====
-- The operations that `main` of rt_client.cc runs, and what it measures. A duration is its number
-- of nanoseconds.
pub mod Success
pub mod Failures
use rpc_transport_tests.Prelude.{
  ℕ, zero, suc, ◌+◌, ◌-◌, ◌*◌, ◌^◌, Bool, true, false, ltb, if◌then◌else◌, Option, none, some, List,
  [], ◌∷◌, codes,
}
use rpc_transport_tests.Prelude.Int.{ℤ, pos, negsuc, pos_part, ◌-ℤ◌, ◌*ℤ◌}
use rpc_transport_tests.Memory.{
  Bytes, DataBuf, Msg, or_fault, Cmd, pure, raise, or_raise, runtime_error, ◌>>=◌, ◌>>◌, resume,
  mul_int,
}
use rpc_transport_tests.Proto.{Codec, Header, hdr_of, w_rsp_hdr, r_rsp_hdr, e_rsp_hdr}
use rpc_transport_tests.Machine.{Machine, when_verbose, stop_clock}
use rpc_transport_tests.Transport.{Buffers, no_buffers, read_buf}
use rpc_transport_tests.Transport.Hex.{log_bytes}
use rpc_transport_tests.Transport.Contracts.{SendReq}
use rpc_transport_tests.Transports.Streams.{release}
use rpc_transport_tests.Client.Requests.{ReqCreator, req_fill}
use rpc_transport_tests.Client.Validator.{ReplyValidator, is_valid}

unfoldable pub process_time : Header → Option ℕ
process_time (w_rsp_hdr h) = some h.msg_process_time_us
process_time (r_rsp_hdr h) = some h.msg_process_time_us
process_time (e_rsp_hdr h) = some h.msg_process_time_us
process_time _ = none

abbrev first_buf : List DataBuf → Option DataBuf
first_buf [] = none
first_buf (b ∷ bs) = some b

-- `getRemoteProcessTimeUs`
unfoldable pub get_remote_process_time_us : Codec → Msg → Cmd ℕ
unfolding process_time
get_remote_process_time_us codec reply = do
  b ← or_raise (first_buf reply.bufs) (runtime_error (codes "empty reply"))
  str ← read_buf b
  hdr ← or_raise (hdr_of (codec.parse str)) (runtime_error (codes "no header"))
  or_raise (process_time hdr) (runtime_error (codes "unexpected header type"))

-- The log line in front of `sendReq`. `req._bufs[0]` is undefined where there is no buffer.
unfoldable pub log_first : Msg → Cmd (Unit {0})
log_first req = do b ← or_fault (first_buf req.bufs); log_bytes b.addr 1

-- A `uint64_t` as the `int64_t` that a duration counts with.
abbrev pub to_int64 : ℕ → ℤ
to_int64 n = if ltb n (2 ^ 63) then pos n else negsuc (2 ^ 64 - 1 - n)

-- The command line: `-block_size`, `-block_count` and `-op_count`.
pub record Sizes : Type 0 where
  pub block_size : ℤ
  pub block_count : ℤ
  pub op_count : ℤ

-- What one operation measures: its interval, the remote time that its reply carries, and the bits of
-- its payload.
pub record Sample : Type 0 where
  pub interval_ns : ℕ
  pub remote_us : ℤ
  pub bits : ℤ

module _ (codec : Codec) (env : Machine) (send : SendReq) where
  -- One round of the loop in `main`. The request and the reply end with it.
  unfoldable pub run_op : ReqCreator → ReplyValidator → Sizes → Cmd Sample
  run_op creator validator f = do
    req ← req_fill codec env creator no_buffers f.block_size f.block_count
    when_verbose env (log_first req.msg)
    reply ← send req.msg no_buffers
    ns ← stop_clock env
    payload_bytes ← mul_int f.block_size f.block_count
    us ← get_remote_process_time_us codec reply.msg
    bits ← mul_int (pos 8) payload_bytes
    valid ← is_valid env validator req.msg reply.msg
    if valid then pure tt else raise (runtime_error (codes "invalid reply"))
    release reply.container
    release req.container
    pure (record { interval_ns = ns; remote_us = to_int64 us; bits = bits })

  -- The rounds that are left, and their samples.
  unfoldable pub run_rounds : ReqCreator → ReplyValidator → Sizes → ℕ → Cmd (List Sample)
  run_rounds creator validator f zero = pure []
  run_rounds creator validator f (suc k) = do
    sample ← run_op creator validator f
    samples ← run_rounds creator validator f k
    pure (sample ∷ samples)

  unfoldable pub run_ops : ReqCreator → ReplyValidator → Sizes → Cmd (List Sample)
  unfolding run_rounds
  run_ops creator validator f = run_rounds creator validator f (pos_part f.op_count)
