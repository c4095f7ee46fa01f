-- ===== src/Transports/Capnproto/Delivery.antt =====
-- A client and a server of capnproto_transport.cc, joined by the runtime.
use rpc_transport_tests.Prelude.{
  ℕ, suc, ◌+◌, ◌≡◌, refl, sym, ◌∙◌, ◌==◌, true, false, List, [], ◌∷◌, ◌++◌, some, length, arith,
  get_elem?, get_elem?-append, length-append,
}
use mathlib.Core.List.{append_assoc, append-nil}
use rpc_transport_tests.Memory.{resume, Bytes, DataBuf, World, ok}
use rpc_transport_tests.Memory.Yields
use rpc_transport_tests.Memory.Yields.{Yields, yields}
use rpc_transport_tests.Transport.{Buffers, ServerClass, no_buffers, call_rcv_fn}
use rpc_transport_tests.Transport.Contracts.{Service, Offers, Delivers, IsReached}
use rpc_transport_tests.Transport.Views.{
  Shows, Holds, pushed, stored, push_string-eq-pushed, read_buf-ok,
}
use rpc_transport_tests.Transports.Streams.{
  receive, receive-Holds, receive-Appends, no_buffers-Holds,
}
use rpc_transport_tests.Transports.Capnproto.{
  StreamCall, send_chunk, done, send_stream, elem_at, send_reply_stream, send_request_stream,
  ReqSvc, req_reply, req_done, serve_calls, reply_calls, Channel, send_req,
}

-- The calls that carry these strings.
abbrev pub chunks : List Bytes → List StreamCall
chunks [] = done ∷ []
chunks (c ∷ cs) = send_chunk c ∷ chunks cs

send_stream-chunks :
    (bufs front rest : List DataBuf) (cs : List Bytes) (i : ℕ) (w : World)
    → bufs ≡ front ++ rest
    → i ≡ length front
    → Shows w rest cs
    → send_stream (suc (length rest)) bufs i w ≡ ok (chunks cs) w
unfolding send_stream elem_at
send_stream-chunks bufs front [] [] i w whole e s = rw (at_end) refl
  where
    at_end : (i == length bufs) ≡ true
    at_end = rw whole (rw (append-nil front) (ground (arith, e)))
send_stream-chunks bufs front [] (c ∷ cs) i w whole e s = absurd s
send_stream-chunks bufs front (b ∷ rest) [] i w whole e s = absurd s
send_stream-chunks bufs front (b ∷ rest) (c ∷ cs) i w whole e (l, at, le, ne, s) =
    let later =
      send_stream-chunks bufs (front ++ (b ∷ [])) rest cs (i + 1) w
        (whole ∙ sym (append_assoc front (b ∷ []) rest))
        (omega (arith, length-append front (b ∷ []))) s in
    rw (before_end, found, read_buf-ok b c w l at ne, later)
  where
    before_end : (i == length bufs) ≡ false
    before_end = rw whole (ground (arith, length-append front (b ∷ rest)))

    found : get_elem? bufs i ≡ some b
    found = rw (e, whole) (get_elem?-append front b rest)

send_reply_stream-chunks :
    (bs : List DataBuf) (cs : List Bytes) (w : World)
    → Shows w bs cs
    → send_reply_stream (record { bufs = bs }) w ≡ ok (chunks cs) w
unfolding send_reply_stream
send_reply_stream-chunks bs cs w s = send_stream-chunks bs [] bs cs 0 w refl refl s

send_request_stream-chunks :
    (bs : List DataBuf) (cs : List Bytes) (w : World)
    → Shows w bs cs
    → send_request_stream (record { bufs = bs }) w ≡ ok (chunks cs) w
unfolding send_request_stream
send_request_stream-chunks bs cs w s = send_stream-chunks bs [] bs cs 0 w refl refl s

-- The chunks of a reply are stored like any strings that come in.
reply_calls-receive :
    (cs : List Bytes) (reply : Buffers) (w : World)
    → reply_calls (chunks cs) reply w ≡ receive cs reply w
unfolding reply_calls receive
reply_calls-receive [] reply w = refl
reply_calls-receive (c ∷ cs) reply w = rw push_string-eq-pushed (reply_calls-receive cs _ _)

-- The chunks of a request are stored, and `done` then answers.
pub serve_calls-receive :
    (c : ServerClass) (cs : List Bytes) (svc : ReqSvc) (w : World)
    → serve_calls c svc (chunks cs) w
      ≡ resume (receive cs svc.rcv w) (λ rcv. serve_calls c (record svc { rcv = rcv }) (done ∷ []))
unfolding serve_calls receive
serve_calls-receive c [] svc w = refl
serve_calls-receive c (s ∷ cs) svc w =
    rw push_string-eq-pushed
      (serve_calls-receive c cs (record svc { rcv = pushed s svc.rcv w }) (stored s w))

req_done-Answer :
    (s : Service) (c : ServerClass) (w : World) (req : Buffers) (cs rs : List Bytes)
    → Offers c s
    → s.Answer w cs rs
    → Holds w req cs
    → Yields (λ r _. r.1 ≡ chunks rs) (req_done c (record { rcv = req; snd = no_buffers }) w)
unfolding req_done call_rcv_fn
req_done-Answer s c w req cs rs offers answer holds = rw offers (
    Yields.then_do (Yields.uncaught (s.answers w cs rs req.msg.bufs answer holds.shows))
      λ rsp u (replied, _).
        rw (send_reply_stream-chunks rsp.msg.bufs rs u replied.shows) (yields refl))

-- The server's calls carry the answer of the service.
serve_calls-Answer :
    (s : Service) (c : ServerClass) (v : World) (cs rs : List Bytes)
    → Offers c s
    → s.Answer v cs rs
    → Yields (λ calls _. calls ≡ chunks rs) (serve_calls c req_reply (chunks cs) v)
unfolding serve_calls
serve_calls-Answer s c v cs rs offers answer = rw (serve_calls-receive c cs req_reply v) (
    Yields.then_do (receive-Holds cs no_buffers [] v (no_buffers-Holds v)) λ req w (holds, quiet).
      Yields.then_do (req_done-Answer s c w req cs rs offers (s.quiet v w cs rs quiet answer) holds)
        λ r u e. yields (append-nil r.1 ∙ e))

-- What the runtime does for a client in memory `w` and a server in memory `v`.
abbrev pub IsConnected : Channel → World → ServerClass → World → Type 0
IsConnected call w c v =
    (calls back : List StreamCall) (v' : World)
    → serve_calls c req_reply calls v ≡ ok back v'
    → call w calls ≡ some back

send_req-Delivers :
    (call : Channel) (w : World) (cs rs : List Bytes)
    → call w (chunks cs) ≡ some (chunks rs)
    → Delivers (send_req call) w cs rs
unfolding send_req
send_req-Delivers call w cs rs answered bs reply before s h =
    rw (send_request_stream-chunks bs cs w s, answered, reply_calls-receive)
      (receive-Appends rs reply before w h)

-- Where the Cap'n Proto runtime carries the calls both ways in order, sending through the client
-- brings the answer of the service that the server's class offers, for every request that it
-- answers.
pub capnproto-IsReached :
    (s : Service) (c : ServerClass) (call : Channel)
    → Offers c s
    → ((w : World) → (v : World) × IsConnected call w c v)
    → IsReached s (send_req call)
capnproto-IsReached s c call offers connected w =
    let (v, link) = connected w in
    (
      v,
      λ cs rs answer.
          let (back, v', ran, e) = Yields.ended (serve_calls-Answer s c v cs rs offers answer) in
          send_req-Delivers call w cs rs (link (chunks cs) (chunks rs) v' (rw e at ran)),
    )
