-- ===== src/Streaming/Echo.antt =====
-- Both ends of the streaming example together.
use mathlib.Core.List.{append_assoc, append-nil}
use rpc_transport_tests.Prelude.{
  ℕ, zero, suc, ◌+◌, ◌%◌, ◌^◌, ◌<◌, ◌==◌, ==_iff, ◌≡◌, ◌≢◌, refl, ap, sym, ◌∙◌, Bool-cases, inl,
  inr, some, List, [], ◌∷◌, ◌++◌, length, length-append, get_elem?, All, codes, map, arith,
}
use rpc_transport_tests.Prelude.Decimal.{to_string-All}
use rpc_transport_tests.Memory.{Bytes}
use rpc_transport_tests.Streaming.{
  Call, send_chunk, done, c_str, test_text, client_strings, server_strings, serve_strings, prefixed,
  joined, collect_strings, req_reply, quoted, indented, written_lines,
}

-- The calls that carry strings.
abbrev pub sent : List Bytes → List Call
sent [] = done ∷ []
sent (s ∷ ss) = send_chunk (c_str s) ∷ sent ss

abbrev pub texts : ℕ → ℕ → List Bytes
texts n zero = []
texts n (suc k) = test_text n ∷ texts (n + 1) k

abbrev pub HasNoNul : Bytes → Type 0
HasNoNul s = All (λ c. 0 < c) s

c_str-HasNoNul : (s : Bytes) → HasNoNul s → c_str s ≡ s
c_str-HasNoNul [] h = refl
c_str-HasNoNul (zero ∷ cs) (pos, h) = absurd (omega (arith, pos))
c_str-HasNoNul (suc c ∷ cs) (pos, h) = rw (c_str-HasNoNul cs h)

client_strings-sent :
    (k n stop : ℕ)
    → stop ≡ n + k
    → stop < 2 ^ 32
    → client_strings (suc k) n stop ≡ some (sent (texts n k))
unfolding client_strings
client_strings-sent zero n stop e small = rw ((==_iff n stop).1 (omega (arith, e)))
client_strings-sent (suc k) n stop e small = elim (Bool-cases (n == stop)) [
  | inl same ↦ absurd (omega (arith, e, (==_iff n stop).0 same))
  | inr other ↦
      let next : (n + 1) % 2 ^ 32 ≡ n + 1 = omega (arith, e, small) in
      rw (other, next, client_strings-sent k (n + 1) stop (omega (arith, e)) small)
]

get_elem?-append :
    (before rest : List Bytes) (s : Bytes)
    → get_elem? (before ++ (s ∷ rest)) (length before) ≡ some s
get_elem?-append [] rest s = refl
get_elem?-append (b ∷ before) rest s = get_elem?-append before rest s

server_strings_step :
    (k : ℕ) (vec : List Bytes) (i : ℕ) (s : Bytes)
    → get_elem? vec i ≡ some s
    → i ≢ length vec
    → server_strings (suc k) vec i
      ≡ prefixed (send_chunk (c_str s)) (server_strings k vec ((i + 1) % 2 ^ 32))
unfolding server_strings
server_strings_step k vec i s found inside = elim (Bool-cases (i == length vec)) [
  | inl same ↦ absurd (inside ((==_iff i (length vec)).0 same))
  | inr other ↦ rw (other, found)
]

server_strings-sent :
    (rest before vec : List Bytes) (i : ℕ)
    → vec ≡ before ++ rest
    → i ≡ length before
    → length before + length rest < 2 ^ 32
    → server_strings (suc (length rest)) vec i ≡ some (sent rest)
unfolding server_strings
server_strings-sent [] before vec i e at small =
    rw (e, append-nil before, (==_iff i (length before)).1 at)
server_strings-sent (s ∷ rest) before vec i e at small =
    let next : (i + 1) % 2 ^ 32 ≡ length (before ++ (s ∷ [])) =
      omega (arith, at, small, length-append before (s ∷ [])) in
    let more : length vec ≡ length before + suc (length rest) =
      ap length e ∙ length-append before (s ∷ rest) in
    server_strings_step (suc (length rest)) vec i s (rw (e, at) (get_elem?-append before rest s))
      (omega (arith, at, more))
    ∙ rw (
        server_strings-sent rest (before ++ (s ∷ [])) vec ((i + 1) % 2 ^ 32) (rw append_assoc e)
          next (omega (arith, small, length-append before (s ∷ []))))

serve_strings-sent :
    (ss vec : List Bytes)
    → All HasNoNul ss
    → serve_strings (sent ss) vec
      ≡ joined (server_strings (suc (length (vec ++ ss))) (vec ++ ss) 0) (some [])
unfolding serve_strings
serve_strings-sent [] vec h = rw (append-nil vec)
serve_strings-sent (s ∷ ss) vec (plain, h) = rw (
  c_str-HasNoNul s plain,
  c_str-HasNoNul s plain,
  serve_strings-sent ss (vec ++ (s ∷ [])) h,
  append_assoc,
)

collect_strings-sent :
    (ss vec : List Bytes) → All HasNoNul ss → collect_strings (sent ss) vec ≡ vec ++ ss
unfolding collect_strings
collect_strings-sent [] vec h = sym (append-nil vec)
collect_strings-sent (s ∷ ss) vec (plain, h) = rw (
  c_str-HasNoNul s plain,
  c_str-HasNoNul s plain,
  collect_strings-sent ss (vec ++ (s ∷ [])) h,
  append_assoc,
)

-- What a side writes for strings that come, and for `done` behind them.
abbrev pub printed : Bytes → List Bytes → List Bytes
printed who ss =
    map (λ s. who ++ (codes " received " ++ quoted s)) ss
    ++ ((who ++ codes " done called:") ∷ map indented ss)

written_lines-sent :
    (who : Bytes) (ss vec : List Bytes)
    → All HasNoNul ss
    → written_lines who (sent ss) vec
      ≡ map (λ s. who ++ (codes " received " ++ quoted s)) ss
        ++ ((who ++ codes " done called:") ∷ map indented (vec ++ ss))
unfolding written_lines
written_lines-sent who [] vec h = rw (append-nil vec, append-nil (map indented vec))
written_lines-sent who (s ∷ ss) vec (plain, h) = rw (
  c_str-HasNoNul s plain,
  c_str-HasNoNul s plain,
  written_lines-sent who ss (vec ++ (s ∷ [])) h,
  append_assoc,
)

texts-HasNoNul : (n k : ℕ) → All HasNoNul (texts n k)
texts-HasNoNul n zero = tt
texts-HasNoNul n (suc k) = (
  (omega arith, (omega arith, (omega arith, (omega arith, (omega arith, to_string-All n))))),
  texts-HasNoNul (n + 1) k,
)

length-texts : (n k : ℕ) → length (texts n k) ≡ k
length-texts n zero = refl
length-texts n (suc k) = ap suc (length-texts (n + 1) k)

-- For a range of numbers below 2^32 the streaming client's chain of promises ends, with one step
-- more than the numbers; the server's chain of replies ends too; and the client has received one
-- text for each number, in order. Both sides have written a line for each text, and then the texts
-- under the line for done.
pub streaming_echo :
    (n k : ℕ)
    → n + k < 2 ^ 32
    → (calls : List Call) × (back : List Call) × (client_strings (suc k) n (n + k) ≡ some calls)
      × (serve_strings calls req_reply ≡ some back)
      × (collect_strings back [] ≡ texts n k)
      × (written_lines (codes "Server") calls req_reply ≡ printed (codes "Server") (texts n k))
      × (written_lines (codes "Client") back [] ≡ printed (codes "Client") (texts n k))
unfolding req_reply
streaming_echo n k small =
    let replied : server_strings (suc (length (texts n k))) (texts n k) 0
        ≡ some (sent (texts n k)) =
      server_strings-sent (texts n k) [] (texts n k) 0 refl refl
        (omega (arith, small, length-texts n k)) in
    (
      sent (texts n k),
      sent (texts n k),
      client_strings-sent k n (n + k) refl small,
      serve_strings-sent (texts n k) [] (texts-HasNoNul n k)
          ∙ rw replied (ap some (append-nil (sent (texts n k)))),
      collect_strings-sent (texts n k) [] (texts-HasNoNul n k),
      written_lines-sent (codes "Server") (texts n k) [] (texts-HasNoNul n k),
      written_lines-sent (codes "Client") (texts n k) [] (texts-HasNoNul n k),
    )
