-- ===== src/Streaming.antt =====
-- transport_hello_world/capnproto/streaming: strings that go to a server one by one, and come back.
-- Cap'n Proto's runtime is a parameter: it carries the calls in order.
pub mod Echo
use rpc_transport_tests.Prelude.{
  ℕ, zero, suc, ◌+◌, ◌%◌, ◌^◌, ◌==◌, if◌then◌else◌, Option, none, some, List, [], ◌∷◌, ◌++◌, length,
  get_elem?, codes, map,
}
use rpc_transport_tests.Prelude.Decimal.{to_string}
use rpc_transport_tests.Memory.{Bytes}

-- The calls on a RequestCallback, and those on a ReplyCallback.
pub data Call : Type 0 where
  send_chunk : Bytes → Call
  done : Call

-- The characters that a `const char *` shows: those in front of the first NUL.
abbrev pub c_str : Bytes → Bytes
c_str [] = []
c_str (zero ∷ cs) = []
c_str (suc c ∷ cs) = suc c ∷ c_str cs

abbrev pub prefixed : Call → Option (List Call) → Option (List Call)
prefixed c none = none
prefixed c (some calls) = some (c ∷ calls)

abbrev pub test_text : ℕ → Bytes
test_text n = codes "Test " ++ to_string n

-- `sendStrings` of client.cpp, with fuel, and `none` where it runs out.
unfoldable pub client_strings : ℕ → ℕ → ℕ → Option (List Call)
client_strings zero str_num stop_num = none
client_strings (suc k) str_num stop_num =
    let rest = client_strings k ((str_num + 1) % 2 ^ 32) stop_num in
    if str_num == stop_num
    then some (done ∷ [])
    else prefixed (send_chunk (c_str (test_text str_num))) rest

abbrev pub next_call : Option Bytes → Option (List Call) → Option (List Call)
next_call none rest = none
next_call (some s) rest = prefixed (send_chunk (c_str s)) rest

-- `ReqSvcImpl::sendStrings` of server.cpp, the same way.
unfoldable pub server_strings : ℕ → List Bytes → ℕ → Option (List Call)
server_strings zero vec str_num = none
server_strings (suc k) vec str_num =
    let rest = server_strings k vec ((str_num + 1) % 2 ^ 32) in
    if str_num == length vec then some (done ∷ []) else next_call (get_elem? vec str_num) rest

abbrev pub joined : Option (List Call) → Option (List Call) → Option (List Call)
joined (some calls) (some more) = some (calls ++ more)
joined _ _ = none

-- `StreamServiceImpl::reqReply`: a ReqSvcImpl, with the strings that it has.
unfoldable pub req_reply : List Bytes
req_reply = []

-- `ReqSvcImpl::sendChunk` and `ReqSvcImpl::done`: the calls that come, and those that go back.
unfoldable pub serve_strings : List Call → List Bytes → Option (List Call)
serve_strings [] vec = some []
serve_strings (send_chunk chunk ∷ calls) vec = serve_strings calls (vec ++ (c_str chunk ∷ []))
serve_strings (done ∷ calls) vec =
    joined (server_strings (suc (length vec)) vec 0) (serve_strings calls vec)

-- `ReplySvcImpl::sendChunk` and `ReplySvcImpl::done` of client.cpp.
unfoldable pub collect_strings : List Call → List Bytes → List Bytes
collect_strings [] vec = vec
collect_strings (send_chunk chunk ∷ calls) vec = collect_strings calls (vec ++ (c_str chunk ∷ []))
collect_strings (done ∷ calls) vec = collect_strings calls vec

abbrev pub quoted : Bytes → Bytes
quoted s = codes "\"" ++ (s ++ codes "\"")

abbrev pub indented : Bytes → Bytes
indented s = codes "  " ++ s

-- The lines that the callbacks of one side write: `who` is `Client` for those of ReplySvcImpl, and
-- `Server` for those of ReqSvcImpl.
unfoldable pub written_lines : Bytes → List Call → List Bytes → List Bytes
written_lines who [] vec = []
written_lines who (send_chunk chunk ∷ calls) vec =
    (who ++ (codes " received " ++ quoted (c_str chunk)))
    ∷ written_lines who calls (vec ++ (c_str chunk ∷ []))
written_lines who (done ∷ calls) vec =
    (who ++ codes " done called:") ∷ (map indented vec ++ written_lines who calls vec)

-- `main` of client.cpp, for what comes back for the calls that are made: the status and the lines.
-- The fuel is one more than the strings.
unfoldable pub streaming_client_main : (List Call → Option (List Call)) → Option (ℕ × List Bytes)
unfolding client_strings written_lines
streaming_client_main send = elim (client_strings 11 1 11) [
  | none ↦ none
  | some calls ↦ elim (send calls) [
    | none ↦ none
    | some back ↦ some (0, written_lines (codes "Client") back [])
  ]
]

-- `main` of server.cpp up to its endless wait: the line that it writes for the port that it got, a
-- `uint16_t`, and then the lines of the callbacks.
unfoldable pub streaming_server_main : ℕ → List Call → List Bytes
unfolding written_lines req_reply
streaming_server_main port calls =
    (codes "Listening on port " ++ (to_string (port % 2 ^ 16) ++ codes "..."))
    ∷ written_lines (codes "Server") calls req_reply
