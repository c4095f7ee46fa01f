-- ===== src/RoundTrip.antt =====
-- The client of rt_client.cc against the server of rt_server.cc: services, answers and samples.
pub mod Runs
pub mod Refusals
pub mod Programs
pub mod Reports
pub mod Startup
use rpc_transport_tests.Prelude.{
  ℕ, zero, suc, ◌+◌, ◌-◌, ◌*◌, ◌/◌, ◌≤◌, ◌<◌, ◌^◌, ◌≡◌, refl, sym, ap, ◌∙◌, List, [], ◌∷◌, ◌++◌,
  map, length, length-map, min, some, arith, All,
}
use native.Mathlib.Nat.{min-le_right}
use rpc_transport_tests.Prelude.Int.{ℤ, pos}
use rpc_transport_tests.Memory.{Bytes, World}
use rpc_transport_tests.Memory.Yields
use rpc_transport_tests.Memory.Yields.{Yields, yields}
use rpc_transport_tests.Proto.{
  Codec, IsCodec, IsBlock, IsWire, Payload, of_hdr, of_data, Header, w_rsp_hdr, r_rsp_hdr,
  e_rsp_hdr,
}
use rpc_transport_tests.Machine.{Machine, IsMachine, drawn, length-drawn}
use rpc_transport_tests.Transport.{no_buffers}
use rpc_transport_tests.Transports.Streams.{no_buffers-Holds}
use rpc_transport_tests.Transports.Restores.{Restores}
use rpc_transport_tests.Transport.Contracts.{Service, SendReq, Delivers, Quiet, IsReached}
use rpc_transport_tests.Server.{server_rcv_fn}
use rpc_transport_tests.Server.Answers.{Answers, acknowledged, bulk, echoed, server_rcv_fn-Answers}
use rpc_transport_tests.Server.Replies.{to_us}
use rpc_transport_tests.Server.Replies.Contents.{write_answer, read_answer}
use rpc_transport_tests.Server.Replies.Echoes.{LogFits, echo_answer}
use rpc_transport_tests.Client.Requests.{ReqCreator, write_req, read_req, echo_req}
use rpc_transport_tests.Client.Requests.Contents.{request, of_blocks}
use rpc_transport_tests.Client.Validator.{ReplyValidator, any_reply, echo_reply}
use rpc_transport_tests.Client.Validator.Covered.{AreCovered}
use rpc_transport_tests.Client.Run.{run_op, process_time, Sample}
use rpc_transport_tests.Client.Run.Success.{Accepts, IsSample, IsReplied, run_op-IsSample}

module _ (codec : Codec) (server : Machine) where
  -- The server as a service.
  abbrev pub rt_service : Service
  rt_service = record {
    fn = server_rcv_fn codec server;
    Answer = λ w cs rs. Answers codec server w.draws w.intervals cs rs;
    quiet = λ w w' cs rs q a. rw (q.draws, q.intervals) a;
    answers = λ w cs rs bs a s.
        server_rcv_fn-Answers codec server w bs no_buffers [] a s (no_buffers-Holds w) λ on. refl;
  }

-- Sizes that every number of the program can hold.
pub record IsSmall (size count : ℕ) : Type 0 where
  pub block : size < 2 ^ 31 - 64
  pub rounds : count + 1 < 2 ^ 31
  pub bits : 8 * (size * count) < 2 ^ 31

-- Each workload with the validator that `main` gives it.
abbrev pub validator_of : ReqCreator → ReplyValidator
validator_of echo_req = echo_reply
validator_of _ = any_reply

module _ (client server : Machine) where
  -- What the client learns of the remote time: nothing of a write, and else the server's interval.
  abbrev pub Reports : ReqCreator → ℕ → Type 0
  Reports write_req us = us ≡ 0
  Reports _ us = (t : ℕ) × (us ≡ to_us (server.elapsed t))

  -- A sample with the remote time that the server reported.
  abbrev pub IsGood : ReqCreator → ℕ → ℕ → Sample → Type 0
  IsGood creator size count sample =
      (us : ℕ) × Reports creator us × IsSample client size count us sample

module _ (codec : Codec) (lawful : IsCodec codec) (client server : Machine)
    (draws : IsMachine client) where
  drawn_blocks : (i n k : ℕ) → n < 2 ^ 31 - 64 → All IsBlock (drawn client i n k)
  drawn_blocks i n zero h = tt
  drawn_blocks i n (suc k) h =
      ((draws.random_bytes i n, omega (arith, draws.length-random i n)), drawn_blocks (suc i) n k h)

  -- Parsing and serializing gives the blocks back.
  echoes_eq :
      (bs : List Bytes)
      → All IsBlock bs
      → map (λ c. codec.serialize (codec.parse c)) (of_blocks codec client bs)
        ≡ of_blocks codec client bs
  echoes_eq [] h = refl
  echoes_eq (b ∷ bs) (h, hs) = rw (lawful.parse-serialize (of_data b) h, echoes_eq bs hs)

  blocks_LogFits :
      (bs : List Bytes) → All IsBlock bs → LogFits codec server (of_blocks codec client bs)
  blocks_LogFits [] h = tt
  blocks_LogFits (b ∷ bs) (h, hs) = λ on.
      rw (lawful.parse-serialize (of_data b) h)
        (omega (arith, min-le_right 100 (length (codec.serialize (of_data b)))))

  covered_refl : (cs : List Bytes) → AreCovered cs cs
  covered_refl [] = tt
  covered_refl (c ∷ cs) = ((0 ∷ [], refl), covered_refl cs)

  -- The strings that the server answers a request with, and the microseconds that they report.
  abbrev answer : ReqCreator → ℕ → ℕ → ℕ → ℕ → ℕ → List Bytes
  answer write_req i d t size count = write_answer codec server
  answer read_req i d t size count = read_answer codec server d t size count
  answer echo_req i d t size count =
      echo_answer codec server t (of_blocks codec client (drawn client i size count))

  request-Answers :
      (creator : ReqCreator) (i d t size count : ℕ)
      → IsSmall size count
      → Answers codec server d t
          (request codec client creator i size count)
          (answer creator i d t size count)
  request-Answers write_req i d t size count small =
      acknowledged _ (lawful.parse-serialize _ (omega arith))
  request-Answers read_req i d t size count small =
      bulk size count (lawful.parse-serialize _ (omega arith)) small.rounds
  request-Answers echo_req i d t size count small =
      echoed _ (lawful.parse-serialize _ (omega arith))
        (blocks_LogFits (drawn client i size count) (drawn_blocks i size count small.block))

  -- The answer of the server, sent from memory `u`, is a reply as the client wants it.
  answer-IsReplied :
      (creator : ReqCreator) (send : SendReq) (i size count : ℕ) (u : World)
      → IsMachine server
      → IsSmall size count
      → IsReached (rt_service codec server) send
      → IsReplied codec client send
          (validator_of creator)
          (request codec client creator i size count)
          u
  unfolding process_time
  answer-IsReplied write_req send i size count u m small reached =
      let (v, delivers) = reached u in
      record {
        head = _;
        rest = _;
        hdr = _;
        us = 0;
        delivers = delivers _ _ (request-Answers write_req i v.draws v.intervals size count small);
        parsed = lawful.parse-serialize _ (omega arith);
        timed = refl;
        accepts = tt;
      }
  answer-IsReplied read_req send i size count u m small reached =
      let (v, delivers) = reached u in
      record {
        head = _;
        rest = _;
        hdr = _;
        us = to_us (server.elapsed v.intervals);
        delivers = delivers _ _ (request-Answers read_req i v.draws v.intervals size count small);
        parsed = lawful.parse-serialize _ (omega (arith, m.elapsed_bound v.intervals));
        timed = refl;
        accepts = tt;
      }
  answer-IsReplied echo_req send i size count u m small reached =
      let (v, delivers) = reached u in
      let sent = of_blocks codec client (drawn client i size count) in
      record {
        head = _;
        rest = _;
        hdr = _;
        us = to_us (server.elapsed v.intervals);
        delivers = delivers _ _ (request-Answers echo_req i v.draws v.intervals size count small);
        parsed = lawful.parse-serialize _ (omega (arith, m.elapsed_bound v.intervals));
        timed = refl;
        accepts = (
          ap suc (sym (length-map _ sent)),
          rw (echoes_eq (drawn client i size count) (drawn_blocks i size count small.block))
              (covered_refl sent),
        );
      }

  answer-Reports :
      (creator : ReqCreator) (send : SendReq) (i size count : ℕ) (u : World) (m : IsMachine server)
      (small : IsSmall size count) (reached : IsReached (rt_service codec server) send)
      → Reports client server creator
          (answer-IsReplied creator send i size count u m small reached).us
  unfolding answer-IsReplied
  answer-Reports write_req send i size count u m small reached = refl
  answer-Reports read_req send i size count u m small reached = ((reached u).0.intervals, refl)
  answer-Reports echo_req send i size count u m small reached = ((reached u).0.intervals, refl)

  pub run_op-IsGood :
      (creator : ReqCreator) (send : SendReq) (size count : ℕ) (ops : ℤ) (w : World)
      → IsMachine server
      → IsSmall size count
      → IsReached (rt_service codec server) send
      → Yields
          (λ sample w'. Restores w w' × IsGood client server creator size count sample)
          (run_op codec client send creator
            (validator_of creator)
            (record { block_size = pos size; block_count = pos count; op_count = ops })
            w)
  run_op-IsGood creator send size count ops w m small reached =
      Yields.weaken
        (run_op-IsSample codec client send creator (validator_of creator) size count ops w
          small.rounds small.bits
          λ u. answer-IsReplied creator send w.draws size count u m small reached)
        λ sample w' (restored, (u, is)).
          (restored, (_, answer-Reports creator send w.draws size count u m small reached, is))
