-- ===== src/Logging.antt =====
-- What the log lines of rt_client.cc, rt_server.cc and payload_creator.hpp change: those of VLOG's
-- level STRING_MEM read memory.
use rpc_transport_tests.Prelude.{
  ℕ, min, ◌+◌, ◌<◌, ◌^◌, ◌≡◌, refl, true, List, [], ◌∷◌, length, some, none, Option, codes,
}
use rpc_transport_tests.Prelude.Int.{ℤ, pos, negsuc}
use rpc_transport_tests.Memory.{
  Bytes, DataBuf, World, fault, Cmd, Exception, or_raise, runtime_error, resume,
}
use rpc_transport_tests.Memory.Yields
use rpc_transport_tests.Memory.Yields.{Yields}
use rpc_transport_tests.Proto.{Codec, hdr_of, of_hdr, e_req_hdr, EchoReqHeader, Header}
use rpc_transport_tests.Machine.{Machine, unlogged, stop_clock}
use rpc_transport_tests.Transport.{ServerClass, no_buffers}
use rpc_transport_tests.Transports.Grpc
use rpc_transport_tests.Transports.Grpc.Unlogged.{req_reply-unlogged, send_req-unlogged}
use rpc_transport_tests.Transport.Contracts.{SendReq}
use rpc_transport_tests.Transport.Views.{Shows, read_buf-ok}
use rpc_transport_tests.Transports.Streams.{no_buffers-Holds}
use rpc_transport_tests.Client.Requests.{ReqCreator}
use rpc_transport_tests.Client.Requests.Contents.{
  req_fill-request, SendsBlocks, req_fill_negative_count,
}
use rpc_transport_tests.Client.Requests.Unlogged.{req_fill-unlogged}
use rpc_transport_tests.Client.Validator.{ReplyValidator}
use rpc_transport_tests.Client.Validator.Unlogged.{is_valid-unlogged}
use rpc_transport_tests.Client.Run.{run_op, log_first}
use rpc_transport_tests.Client.Run.Success.{request_logged}
use rpc_transport_tests.Server.{server_rcv_fn, job_of, select_job, Job}
use rpc_transport_tests.Server.Replies.{RspCreator, write_rsp, read_rsp, echo_rsp, rsp_fill}
use rpc_transport_tests.Server.Replies.Echoes.{LogFits}
use rpc_transport_tests.Server.Replies.Unlogged.{
  write_rsp_fill-unlogged, read_rsp_fill-unlogged, echo_rsp_fill-unlogged,
}
use rpc_transport_tests.Server.Replies.Overruns.{echo_rsp_fill-fault}
use rpc_transport_tests.Server.Answers.{parse_job-read, parse_job-eq}

module _ {A B : Type 0} (o : Option A) (e : Exception) (w : World) where
  or_raise_same :
      (k k' : A → Cmd B)
      → ((a : A) → k a w ≡ k' a w)
      → resume (or_raise o e w) k ≡ resume (or_raise o e w) k'
  or_raise_same k k' h = elim o as (λ p. resume (or_raise p e w) k ≡ resume (or_raise p e w) k') [
    | none ↦ refl
    | some a ↦ h a
  ]

-- What is done with the job of a string matters only where there is one.
job_of_same :
    {B : Type 0} (codec : Codec) (c : Bytes) (k k' : Job → Cmd B) (w : World)
    → ((job : Job) → k job w ≡ k' job w)
    → resume (job_of codec c w) k ≡ resume (job_of codec c w) k'
unfolding job_of
job_of_same codec c k k' w h = parsed (hdr_of (codec.parse c))
  where
    parsed :
        (o : Option Header)
        → resume
            (resume
              (or_raise o (runtime_error (codes "no header")) w)
              λ hdr. or_raise (select_job hdr) (runtime_error (codes "unexpected header type")))
            k
          ≡ resume
              (resume
                (or_raise o (runtime_error (codes "no header")) w)
                λ hdr. or_raise (select_job hdr) (runtime_error (codes "unexpected header type")))
              k'
    parsed none = refl
    parsed (some hdr) =
        or_raise_same (select_job hdr) (runtime_error (codes "unexpected header type")) w k k' h

module _ (codec : Codec) (env : Machine) where
  run_op-unlogged :
      (send : SendReq) (creator : ReqCreator) (v : ReplyValidator) (size count : ℕ) (ops : ℤ)
      (w : World)
      → count + 1 < 2 ^ 31
      → run_op codec env send creator v
          (record { block_size = pos size; block_count = pos count; op_count = ops })
          w
        ≡ run_op codec
            (unlogged env)
            send
            creator
            v
            (record { block_size = pos size; block_count = pos count; op_count = ops })
            w
  unfolding run_op stop_clock
  run_op-unlogged send creator v size count ops w rounds =
      let (req, u, filled, (made, _)) = Yields.ended (
        req_fill-request codec (unlogged env) creator size count no_buffers [] w rounds
          (no_buffers-Holds w)) in
      rw (
        req_fill-unlogged codec env creator,
        is_valid-unlogged env,
        filled,
        request_logged codec env creator w.draws size count req.msg.bufs u made.shows,
      )

  job_unlogged :
      (creator : RspCreator) (bs : List DataBuf) (size count : ℤ) (c : Bytes) (cs : List Bytes)
      (w : World)
      → Shows w bs (c ∷ cs)
      → LogFits codec env cs
      → rsp_fill codec env creator (record { bufs = bs }) no_buffers size count w
        ≡ rsp_fill codec (unlogged env) creator (record { bufs = bs }) no_buffers size count w
  job_unlogged write_rsp bs size count c cs w s fits = rw (write_rsp_fill-unlogged codec env)
  job_unlogged read_rsp bs size count c cs w s fits = rw (read_rsp_fill-unlogged codec env)
  job_unlogged echo_rsp bs size count c cs w s fits =
      echo_rsp_fill-unlogged codec env bs size count c cs w s fits

  server_rcv_fn-unlogged :
      (bs : List DataBuf) (c : Bytes) (cs : List Bytes) (w : World)
      → Shows w bs (c ∷ cs)
      → LogFits codec env cs
      → server_rcv_fn codec env (record { bufs = bs }) no_buffers w
        ≡ server_rcv_fn codec (unlogged env) (record { bufs = bs }) no_buffers w
  unfolding server_rcv_fn
  server_rcv_fn-unlogged [] c cs w s fits = absurd s
  server_rcv_fn-unlogged (b ∷ bs) c cs w (l, at, le, ne, s) fits =
      rw
        (
          parse_job-read codec env b w,
          parse_job-read codec (unlogged env) b w,
          read_buf-ok b c w l at ne,
        )
        (job_of_same codec c _ _ w λ job.
          job_unlogged job.creator (b ∷ bs) job.block_size job.block_count c cs w (l, at, le, ne, s)
            fits)

  -- Where the count of the blocks and one more fits an int, an operation of the client is the same
  -- with the log lines and without them, over any transport; and so is the receive function for a
  -- request with strings and an empty reply, where a payload that it echoes first is not serialized
  -- to a string that is shorter by more than one than the one that came, or than 100 characters.
  -- The handler and the client of gRPC are the same for everything that comes.
  pub logging_unseen :
      (send : SendReq) (creator : ReqCreator) (v : ReplyValidator) (size count : ℕ) (ops : ℤ)
      (bs : List DataBuf) (c : Bytes) (cs : List Bytes) (w w' w'' : World) (class : ServerClass)
      (reqs : List Bytes) (call : Grpc.Channel)
      → count + 1 < 2 ^ 31
      → Shows w' bs (c ∷ cs)
      → LogFits codec env cs
      → (run_op codec env send creator v
            (record { block_size = pos size; block_count = pos count; op_count = ops })
            w
          ≡ run_op codec
              (unlogged env)
              send
              creator
              v
              (record { block_size = pos size; block_count = pos count; op_count = ops })
              w)
        × (server_rcv_fn codec env (record { bufs = bs }) no_buffers w'
            ≡ server_rcv_fn codec (unlogged env) (record { bufs = bs }) no_buffers w')
        × (Grpc.req_reply env class reqs w'' ≡ Grpc.req_reply (unlogged env) class reqs w'')
        × (Grpc.send_req env call ≡ Grpc.send_req (unlogged env) call)
  logging_unseen send creator v size count ops bs c cs w w' w'' class reqs call rounds s fits = (
    run_op-unlogged send creator v size count ops w rounds,
    server_rcv_fn-unlogged bs c cs w' s fits,
    req_reply-unlogged env class reqs w'',
    send_req-unlogged env call,
  )

-- With the log lines of level STRING_MEM, an operation of the client that sends blocks is undefined
-- behaviour at a negative count, over any transport; and so is the receive function for an echo
-- request whose first payload is serialized to a string that is shorter by more than one than the
-- one that came, or than 100 characters.
pub log_overruns :
    (codec : Codec) (env : Machine) (send : SendReq) (creator : ReqCreator) (v : ReplyValidator)
    (size ops : ℤ) (n : ℕ) (bs : List DataBuf) (h : EchoReqHeader) (c₀ c : Bytes) (cs : List Bytes)
    (u w : World)
    → env.verbose ≡ true
    → SendsBlocks codec env creator
    → n < 2 ^ 31
    → Shows w bs (c₀ ∷ c ∷ cs)
    → codec.parse c₀ ≡ of_hdr (e_req_hdr h)
    → length (codec.serialize (codec.parse c)) + 1 < min 100 (length c)
    → (run_op codec env send creator v
          (record { block_size = size; block_count = negsuc n; op_count = ops })
          u
        ≡ fault)
      × (server_rcv_fn codec env (record { bufs = bs }) no_buffers w ≡ fault)
unfolding run_op log_first server_rcv_fn select_job
log_overruns codec env send creator v size ops n [] h c₀ c cs u w on sends small s e long = absurd s
log_overruns codec env send creator v size ops n (b ∷ bs) h c₀ c cs u w on sends small
      (l, at, le, ne, s) e long =
    (
      rw (req_fill_negative_count codec env creator size n no_buffers u sends small, on) refl,
      rw (parse_job-eq codec env b c₀ _ _ w (read_buf-ok b c₀ w l at ne) e refl)
          (echo_rsp_fill-fault codec env on (b ∷ bs) _ _ c₀ c cs w (l, at, le, ne, s) long),
    )
