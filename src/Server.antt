-- ===== src/Server.antt =====
-- rt_client_server/rt_server.cc: the payload creators of the replies and the receive function.
pub mod Replies
pub mod Answers
pub mod Limits
pub mod Main
pub mod Connect
use rpc_transport_tests.Prelude.{Option, none, some, [], ◌∷◌, codes}
use rpc_transport_tests.Prelude.Int.{ℤ}
use rpc_transport_tests.Memory.{
  Bytes, DataBuf, Cmd, pure, raise, or_raise, runtime_error, ◌>>=◌, ◌>>◌, resume,
}
use rpc_transport_tests.Proto.{Codec, Payload, hdr_of, Header, w_req_hdr, r_req_hdr, e_req_hdr}
use rpc_transport_tests.Machine.{Machine, when_verbose}
use rpc_transport_tests.Transport.{RcvFn, read_buf}
use rpc_transport_tests.Transport.Hex.{log_bytes}
use Replies.{RspCreator, write_rsp, read_rsp, echo_rsp, rsp_fill}

-- The creator for a request's header, with the size and the count of its blocks.
abbrev pub Job : Type 0
Job = record { creator : RspCreator; block_size : ℤ; block_count : ℤ }

unfoldable pub select_job : Header → Option Job
select_job (w_req_hdr h) =
    some (record { creator = write_rsp; block_size = h.buf_size; block_count = h.buf_count })
select_job (r_req_hdr h) =
    some (record { creator = read_rsp; block_size = h.buf_size; block_count = h.buf_count })
select_job (e_req_hdr h) =
    some (record { creator = echo_rsp; block_size = h.buf_size; block_count = h.buf_count })
select_job _ = none

-- `ServerRcvFn` from the string of the header to the creator.
unfoldable pub job_of : Codec → Bytes → Cmd Job
unfolding select_job
job_of codec str = do
  hdr ← or_raise (hdr_of (codec.parse str)) (runtime_error (codes "no header"))
  or_raise (select_job hdr) (runtime_error (codes "unexpected header type"))

-- `ServerRcvFn` up to the call of `fill`: the first buffer says what to do. Its other log lines read
-- the local `str`.
unfoldable pub parse_job : Codec → Machine → DataBuf → Cmd Job
unfolding job_of
parse_job codec env b = do when_verbose env (log_bytes b.addr 1); str ← read_buf b; job_of codec str

unfoldable pub server_rcv_fn : Codec → Machine → RcvFn
unfolding parse_job
server_rcv_fn codec env req rsp = elim req.bufs [
  | [] ↦ raise (runtime_error (codes "empty request"))
  | b ∷ _ ↦ (do
    job ← parse_job codec env b
    rsp_fill codec env job.creator req rsp job.block_size job.block_count)
]
