-- ===== src/Server/Answers.antt =====
-- The receive function of rt_server.cc against a description of its answers, and what it throws.
use rpc_transport_tests.Prelude.{
  ℕ, ◌+◌, ◌<◌, ◌^◌, ◌≡◌, refl, List, [], ◌∷◌, codes, none, some, true,
}
use rpc_transport_tests.Prelude.Int.{pos}
use rpc_transport_tests.Memory.{ok, throw, runtime_error, Bytes, World, DataBuf, resume}
use rpc_transport_tests.Proto.{
  Codec, payload_not_set, of_hdr, of_data, Header, hdr_not_set, w_req_hdr, r_req_hdr, e_req_hdr,
  w_rsp_hdr, r_rsp_hdr, e_rsp_hdr, WriteReqHeader, EchoReqHeader,
}
use rpc_transport_tests.Machine.{Machine}
use rpc_transport_tests.Transport.{Buffers, read_buf}
use rpc_transport_tests.Transport.Hex.{log_then_read}
use rpc_transport_tests.Transport.Views.{Shows, Holds, Appends, read_buf-ok}
use rpc_transport_tests.Server.Replies.Contents.{
  write_answer, read_answer, write_rsp_fill-Appends, read_rsp_fill-Appends,
}
use rpc_transport_tests.Server.Replies.Echoes.{LogFits, echo_answer, echo_rsp_fill-Appends}
use rpc_transport_tests.Server.{server_rcv_fn, parse_job, job_of, select_job, Job}

module _ (codec : Codec) (env : Machine) where
  -- The answer to the strings of a request, after `d` random draws and `t` measured intervals: an
  -- acknowledgement, as many random blocks as were asked for, or the payloads that came.
  pub data Answers (d t : ℕ) : List Bytes → List Bytes → Type 0 where
    acknowledged :
        {c : Bytes} {cs : List Bytes} (h : WriteReqHeader)
        → codec.parse c ≡ of_hdr (w_req_hdr h)
        → Answers d t (c ∷ cs) (write_answer codec env)
    bulk :
        {c : Bytes} {cs : List Bytes} (size count : ℕ)
        → codec.parse c ≡ of_hdr (r_req_hdr (record { buf_count = pos count; buf_size = pos size }))
        → count + 1 < 2 ^ 31
        → Answers d t (c ∷ cs) (read_answer codec env d t size count)
    echoed :
        {c : Bytes} {cs : List Bytes} (h : EchoReqHeader)
        → codec.parse c ≡ of_hdr (e_req_hdr h)
        → LogFits codec env cs
        → Answers d t (c ∷ cs) (echo_answer codec env t cs)

  -- The log line in front changes nothing.
  pub parse_job-read :
      (b : DataBuf) (w : World) → parse_job codec env b w ≡ resume (read_buf b w) (job_of codec)
  unfolding parse_job
  parse_job-read b w = log_then_read env b (job_of codec) w

  -- The job of a request whose first string parses to a header.
  pub parse_job-eq :
      (b : DataBuf) (c : Bytes) (hdr : Header) (job : Job) (w : World)
      → read_buf b w ≡ ok c w
      → codec.parse c ≡ of_hdr hdr
      → select_job hdr ≡ some job
      → parse_job codec env b w ≡ ok job w
  unfolding job_of
  parse_job-eq b c hdr job w read parsed selected = rw (parse_job-read, read, parsed, selected)

  -- For a write request, an echo request whose log line can be written, and a read request whose
  -- size is not negative and whose count and one more fit an int, the receive function ends with a
  -- value and appends the described strings to the reply, which is empty where log lines are on: a
  -- header without a time for a write, a header with the measured time and freshly drawn blocks for
  -- a read, a header with the time and the payloads that came for an echo. What was in memory
  -- stays, and each string that is made is owned by the container.
  pub server_rcv_fn-Answers :
      (w : World) {cs rs : List Bytes} (bs : List DataBuf) (out : Buffers) (before : List Bytes)
      → Answers w.draws w.intervals cs rs
      → Shows w bs cs
      → Holds w out before
      → (env.verbose ≡ true → before ≡ [])
      → Appends w out before rs (server_rcv_fn codec env (record { bufs = bs }) out w)
  unfolding server_rcv_fn select_job
  server_rcv_fn-Answers w [] out before (acknowledged h e) s holds first = absurd s
  server_rcv_fn-Answers w [] out before (bulk size count e fits) s holds first = absurd s
  server_rcv_fn-Answers w [] out before (echoed h e fits) s holds first = absurd s
  server_rcv_fn-Answers w (b ∷ bs) out before (acknowledged {c} {cs} h e) (l, at, le, ne, s) holds
        first =
      rw (parse_job-eq b c _ _ w (read_buf-ok b c w l at ne) e refl)
        (write_rsp_fill-Appends codec env _ _ _ out before w holds)
  server_rcv_fn-Answers w (b ∷ bs) out before (bulk {c} {cs} size count e fits) (l, at, le, ne, s)
        holds first =
      rw (parse_job-eq b c _ _ w (read_buf-ok b c w l at ne) e refl)
        (read_rsp_fill-Appends codec env _ size count out before w fits holds)
  server_rcv_fn-Answers w (b ∷ bs) out before (echoed {c} {cs} h e fits) (l, at, le, ne, s) holds
        first =
      rw (parse_job-eq b c _ _ w (read_buf-ok b c w l at ne) e refl) (
        echo_rsp_fill-Appends codec env (record { bufs = b ∷ bs }) _ _ c cs out before w
          (l, at, le, ne, s) holds fits first)

  -- Headers that a client sends.
  abbrev pub IsRequest : Header → Type 0
  IsRequest (w_req_hdr h) = Unit {0}
  IsRequest (r_req_hdr h) = Unit {0}
  IsRequest (e_req_hdr h) = Unit {0}
  IsRequest _ = ⊥

  -- The requests that the server refuses, with what it says.
  pub data Refused : List Bytes → Bytes → Type 0 where
    empty : Refused [] (codes "empty request")
    unparsed :
        {c : Bytes} {cs : List Bytes}
        → codec.parse c ≡ payload_not_set
        → Refused (c ∷ cs) (codes "no header")
    headless :
        {c : Bytes} {cs : List Bytes} (bytes : Bytes)
        → codec.parse c ≡ of_data bytes
        → Refused (c ∷ cs) (codes "no header")
    unexpected :
        {c : Bytes} {cs : List Bytes} (h : Header)
        → codec.parse c ≡ of_hdr h
        → ¬ IsRequest h
        → Refused (c ∷ cs) (codes "unexpected header type")

  select_job_unexpected : (h : Header) → ¬ IsRequest h → select_job h ≡ none
  unfolding select_job
  select_job_unexpected hdr_not_set n = refl
  select_job_unexpected (r_req_hdr h) n = absurd (n tt)
  select_job_unexpected (w_req_hdr h) n = absurd (n tt)
  select_job_unexpected (e_req_hdr h) n = absurd (n tt)
  select_job_unexpected (r_rsp_hdr h) n = refl
  select_job_unexpected (w_rsp_hdr h) n = refl
  select_job_unexpected (e_rsp_hdr h) n = refl

  -- The receive function throws `empty request` for a request without strings, `no header` where
  -- the first string has no header, and `unexpected header type` where its header is no request's.
  -- Memory stays as it was.
  pub server_rcv_fn-Refused :
      (w : World) {cs : List Bytes} {why : Bytes} (bs : List DataBuf) (out : Buffers)
      → Refused cs why
      → Shows w bs cs
      → server_rcv_fn codec env (record { bufs = bs }) out w ≡ throw (runtime_error why) w
  unfolding server_rcv_fn job_of
  server_rcv_fn-Refused w [] out empty s = refl
  server_rcv_fn-Refused w [] out (unparsed e) s = absurd s
  server_rcv_fn-Refused w [] out (headless d e) s = absurd s
  server_rcv_fn-Refused w [] out (unexpected h e n) s = absurd s
  server_rcv_fn-Refused w (b ∷ bs) out empty s = absurd s
  server_rcv_fn-Refused w (b ∷ bs) out (unparsed {c} e) (l, at, le, ne, s) =
      rw (parse_job-read, read_buf-ok b c w l at ne, e)
  server_rcv_fn-Refused w (b ∷ bs) out (headless {c} d e) (l, at, le, ne, s) =
      rw (parse_job-read, read_buf-ok b c w l at ne, e)
  server_rcv_fn-Refused w (b ∷ bs) out (unexpected {c} h e n) (l, at, le, ne, s) =
      rw (parse_job-read, read_buf-ok b c w l at ne, e, select_job_unexpected h n)
