-- ===== src/Client/Run/Success.antt =====
-- The operations of rt_client.cc over a transport that delivers answers.
use rpc_transport_tests.Prelude.{
  ℕ, suc, ◌+◌, ◌*◌, ◌<◌, ◌^◌, ◌≡◌, refl, ap, some, List, [], ◌∷◌, length, arith,
}
use rpc_transport_tests.Prelude.Int.{ℤ, pos}
use rpc_transport_tests.Memory.{Bytes, DataBuf, World, ok}
use rpc_transport_tests.Memory.Yields
use rpc_transport_tests.Memory.Yields.{Yields, yields}
use rpc_transport_tests.Proto.{Codec, Header, of_hdr}
use rpc_transport_tests.Machine.{Machine}
use rpc_transport_tests.Memory.Ints.{mul_int-ok}
use rpc_transport_tests.Prelude.{true}
use rpc_transport_tests.Machine.{stop_clock, when_verbose, when_verbose-ok}
use rpc_transport_tests.Transport.{no_buffers}
use rpc_transport_tests.Transport.Hex.{log_bytes-ok}
use rpc_transport_tests.Transport.Contracts.{SendReq, Delivers}
use rpc_transport_tests.Transport.Views.{Keeps, Keeps-trans, Shows-Keeps}
use rpc_transport_tests.Transports.Streams.{no_buffers-Holds}
use rpc_transport_tests.Transports.Restores.{Restores, release_both-Restores}
use rpc_transport_tests.Client.Requests.{ReqCreator, write_req, read_req, echo_req}
use rpc_transport_tests.Client.Requests.Contents.{request, req_fill-request}
use rpc_transport_tests.Client.Validator.{ReplyValidator, any_reply, echo_reply, is_valid}
use rpc_transport_tests.Client.Validator.Covered.{AreCovered, blocks, is_valid-AreCovered}
use rpc_transport_tests.Transport.Views.{Shows, read_buf-ok}
use rpc_transport_tests.Client.Run.{
  get_remote_process_time_us, process_time, log_first, run_op, Sample, to_int64,
}

module _ (codec : Codec) where
  -- The remote time of a reply whose first string carries it.
  pub get_remote_process_time_us-eq :
      (bs : List DataBuf) (c : Bytes) (cs : List Bytes) (hdr : Header) (us : ℕ) (w : World)
      → Shows w bs (c ∷ cs)
      → codec.parse c ≡ of_hdr hdr
      → process_time hdr ≡ some us
      → get_remote_process_time_us codec (record { bufs = bs }) w ≡ ok us w
  unfolding get_remote_process_time_us
  get_remote_process_time_us-eq [] c cs hdr us w s parsed timed = absurd s
  get_remote_process_time_us-eq (b ∷ bs) c cs hdr us w (l, e, le, ne, s) parsed timed =
      rw (read_buf-ok b c w l e ne, parsed, timed)

-- A message with strings has a first one to log.
pub log_first-ok :
    (bs : List DataBuf) (c : Bytes) (cs : List Bytes) (w : World)
    → Shows w bs (c ∷ cs)
    → log_first (record { bufs = bs }) w ≡ ok tt w
unfolding log_first
log_first-ok [] c cs w s = absurd s
log_first-ok (b ∷ bs) c cs w (l, e, le, ne, s) = log_bytes-ok b.addr 1 c w e ne (omega arith)

-- So the requests have one.
pub request_logged :
    (codec : Codec) (env : Machine) (creator : ReqCreator) (i size count : ℕ) (bs : List DataBuf)
    (w : World)
    → Shows w bs (request codec env creator i size count)
    → when_verbose env (log_first (record { bufs = bs })) w ≡ ok tt w
request_logged codec env write_req i size count bs w s =
    when_verbose-ok env _ w λ on. log_first-ok bs _ _ w s
request_logged codec env read_req i size count bs w s =
    when_verbose-ok env _ w λ on. log_first-ok bs _ _ w s
request_logged codec env echo_req i size count bs w s =
    when_verbose-ok env _ w λ on. log_first-ok bs _ _ w s

-- What a validator asks of the strings of a reply.
abbrev pub Accepts : ReplyValidator → List Bytes → List Bytes → Type 0
Accepts any_reply cs rs = Unit {0}
Accepts echo_reply cs rs = (length cs ≡ length rs) × AreCovered (blocks cs) (blocks rs)

is_valid-Accepts :
    (env : Machine) (v : ReplyValidator) (bs rs : List DataBuf) (cs ds : List Bytes) (w : World)
    → Shows w bs cs
    → Shows w rs ds
    → Accepts v cs ds
    → is_valid env v (record { bufs = bs }) (record { bufs = rs }) w ≡ ok true w
is_valid-Accepts env any_reply bs rs cs ds w s t a = unfold is_valid in refl
is_valid-Accepts env echo_reply bs rs cs ds w s t a =
    (is_valid-AreCovered env bs rs cs ds w s t).1 a

-- The sample of an operation of that size, for a reply that carries `us` microseconds.
pub record IsSample (env : Machine) (size count us : ℕ) (sample : Sample) : Type 0 where
  pub interval : ℕ
  pub measured : sample.interval_ns ≡ env.elapsed interval
  pub reported : sample.remote_us ≡ to_int64 us
  pub bits : sample.bits ≡ pos (8 * (size * count))

module _ (codec : Codec) (env : Machine) (send : SendReq) where
  -- What comes back for the strings `cs` that are sent from memory `u`: a header with a remote time
  -- and strings that the validator accepts.
  pub record IsReplied (v : ReplyValidator) (cs : List Bytes) (u : World) : Type 0 where
    pub head : Bytes
    pub rest : List Bytes
    pub hdr : Header
    pub us : ℕ
    pub delivers : Delivers send u cs (head ∷ rest)
    pub parsed : codec.parse head ≡ of_hdr hdr
    pub timed : process_time hdr ≡ some us
    pub accepts : Accepts v cs (head ∷ rest)

  -- Over a transport that brings a header with a remote time and strings that the validator
  -- accepts, an operation of sizes that fit ends with a sample: the interval, the remote time, and
  -- eight bits for each byte of the payload; and memory is as it was, with no string left that was
  -- made.
  pub run_op-IsSample :
      (creator : ReqCreator) (v : ReplyValidator) (size count : ℕ) (ops : ℤ) (w : World)
      → count + 1 < 2 ^ 31
      → 8 * (size * count) < 2 ^ 31
      → (replied : (u : World) → IsReplied v (request codec env creator w.draws size count) u)
      → Yields
          (λ sample w'.
            Restores w w' × ((u : World) × IsSample env size count (replied u).us sample))
          (run_op codec env send creator v
            (record { block_size = pos size; block_count = pos count; op_count = ops })
            w)
  unfolding run_op stop_clock
  run_op-IsSample creator v size count ops w rounds fits replied =
      Yields.then_do
        (req_fill-request codec env creator size count no_buffers [] w rounds (no_buffers-Holds w))
        λ req u (sent, wrote).
          let a = replied u in
          rw (request_logged codec env creator w.draws size count req.msg.bufs u sent.shows) (
            Yields.then_do (a.delivers req.msg.bufs no_buffers [] sent.shows (no_buffers-Holds u))
              λ reply x (came, got).
                let y : World = record x { intervals = suc x.intervals } in
                let later : Keeps x y = record { grows = omega arith; same = λ p le. refl } in
                let shown : Shows y reply.msg.bufs (a.head ∷ a.rest) =
                  Shows-Keeps reply.msg.bufs _ later came.shows in
                let asked : Shows y req.msg.bufs (request codec env creator w.draws size count) =
                  Shows-Keeps req.msg.bufs _ (Keeps-trans got.keeps later) sent.shows in
                rw
                  (
                    mul_int-ok size count y (omega arith),
                    get_remote_process_time_us-eq codec reply.msg.bufs a.head a.rest a.hdr a.us y
                        shown a.parsed a.timed,
                    mul_int-ok 8 (size * count) y fits,
                    is_valid-Accepts env v req.msg.bufs reply.msg.bufs _ _ y asked shown a.accepts,
                  )
                  (Yields.weaken
                    (release_both-Restores _ w u y req reply _ (a.head ∷ a.rest) wrote
                      (Keeps-trans got.keeps later) got.count got.owned)
                    λ sample v (same, restored). (
                      restored,
                      (
                        u,
                        record {
                          interval = x.intervals;
                          measured = ap (λ s. s.interval_ns) same;
                          reported = ap (λ s. s.remote_us) same;
                          bits = ap (λ s. s.bits) same;
                        },
                      ),
                    )))
