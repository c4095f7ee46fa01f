-- ===== src/Tests/Interleaving.antt =====
-- Two requests at a time at a server of capnproto_transport.cc.
use rpc_transport_tests.Prelude.{◌≡◌, refl, set, some, [], ◌∷◌}
use rpc_transport_tests.Prelude.Int.{pos}
use rpc_transport_tests.Memory.{Bytes, World, ok}
use rpc_transport_tests.Memory.Yields.{Yields}
use rpc_transport_tests.Proto.{of_hdr, w_req_hdr}
use rpc_transport_tests.Transport.Views.{Keeps, pushed, stored, push_string-eq-pushed}
use rpc_transport_tests.Server.Answers.{acknowledged}
use rpc_transport_tests.Server.Replies.Contents.{write_answer}
use rpc_transport_tests.Transports.Capnproto.{req_reply, req_send_chunk}
use rpc_transport_tests.Transports.Capnproto.Sessions.{
  replied, collecting, Session, opened, Sessions, no_sessions, put, serve_chunk, serve_done, finish,
  chunk, Alone, fresh, serve, Reach, started, next,
}
use rpc_transport_tests.Transports.Capnproto.Sessions.Isolation.{Fits, Reach-Fits, Reach-Due}
use rpc_transport_tests.Transports.Capnproto.Sessions.Progress.{Reach-replied}
use rpc_transport_tests.Transports.Capnproto.Delivery.{chunks}
use rpc_transport_tests.Tests.Fixtures.{codec, machine, empty_world}
use rpc_transport_tests.Tests.Peers.{service, server_class}

abbrev write_head : Bytes
write_head = codec.serialize (of_hdr (w_req_hdr (record { buf_count = pos 1; buf_size = pos 2 })))

-- An object after its first chunk.
abbrev after : Bytes → World → Session
after s w = record {
  svc = record { rcv = pushed s req_reply.rcv w; snd = req_reply.snd };
  phase = collecting;
  request = s ∷ [];
  reply = [];
}

serve_chunk_first : (s : Bytes) (w : World) → serve_chunk s opened w ≡ ok (after s w) (stored s w)
unfolding serve_chunk req_send_chunk
serve_chunk_first s w = rw push_string-eq-pushed refl

-- Two objects, and a chunk for each, the second's first.
abbrev both : Sessions
both = record {
  at = set (set (no_sessions empty_world).at 0 (some opened)) 1 (some opened);
  count = 2;
  memory = empty_world;
}

abbrev other_world : World
other_world = stored (7 ∷ 7 ∷ []) empty_world

abbrev two_requests : Sessions
two_requests =
    put 0 (after write_head other_world) (stored write_head other_world)
      (put 1 (after (7 ∷ 7 ∷ []) empty_world) other_world both)

two_requests-Reach : Reach service server_class empty_world two_requests
two_requests-Reach =
    next
      (next (next (next started fresh) fresh)
        (serve 1 {x = opened} refl (chunk (7 ∷ 7 ∷ []) refl) (serve_chunk_first _ empty_world)))
      (serve 0 {x = opened} refl (chunk write_head refl) (serve_chunk_first _ other_world))

Reach-Fits_example : Fits service two_requests.memory (after write_head other_world) collecting
Reach-Fits_example =
    Reach-Fits service server_class empty_world two_requests 0 (after write_head other_world) refl
      two_requests-Reach refl

Reach-Due_example :
    Yields
      (λ x' w'. Keeps two_requests.memory w' × Fits service w' x' x'.phase)
      (serve_done server_class (after write_head other_world) two_requests.memory)
Reach-Due_example =
    Reach-Due service server_class empty_world two_requests 0 (after write_head other_world)
      (serve_done server_class (after write_head other_world)) refl two_requests-Reach refl
      (finish (write_answer codec machine) refl
        (acknowledged (record { buf_count = pos 1; buf_size = pos 2 }) refl))

Reach-replied_example :
    (x' : Session) × (u : World) × Alone service server_class 0 two_requests
      (put 0 x' u two_requests)
    × (x'.phase ≡ replied)
    × (x'.reply ≡ chunks (write_answer codec machine))
Reach-replied_example =
    Reach-replied service server_class empty_world two_requests 0 (after write_head other_world)
      (write_answer codec machine) refl two_requests-Reach refl refl
      (acknowledged (record { buf_count = pos 1; buf_size = pos 2 }) refl)
