-- ===== src/Hello/GreeterClient.antt =====
-- transport_hello_world/grpc/greeter_client.cc.
use rpc_transport_tests.Prelude.{
  starts_with, ℕ, suc, ◌+◌, ◌==◌, if◌then◌else◌, Option, none, some, List, [], ◌∷◌, ◌++◌, length,
  drop, get_elem?, codes,
}
use mathlib.Core.Option as Option
use rpc_transport_tests.Prelude.Decimal.{to_string}
use rpc_transport_tests.Memory.{Bytes}
use rpc_transport_tests.Transports.Grpc.{Status, status_ok, status_error}

-- The status of a call, and the message of the reply.
abbrev pub Stub : Type 0
Stub = Bytes → Status × Bytes

-- What is returned for a status and a message, and the lines that are written.
abbrev pub act_upon : Status × Bytes → Bytes × List Bytes
act_upon (status_ok, message) = (message, [])
act_upon (status_error code text, message) =
    (codes "RPC failed", (to_string code ++ (codes ": " ++ text)) ∷ [])

-- `GreeterClient::SayHello`
unfoldable pub say_hello : Stub → Bytes → Bytes × List Bytes
say_hello stub user = act_upon (stub user)

-- `s.find(p)`, `none` for `npos`.
unfoldable pub find : Bytes → Bytes → Option ℕ
find [] p = if starts_with [] p then some 0 else none
find (c ∷ s) p =
    let later = find s p in if starts_with (c ∷ s) p then some 0 else Option.map (λ i. suc i) later

-- `s[i]`, NUL at the end.
unfoldable pub char_at : Bytes → ℕ → ℕ
char_at s i = elim (get_elem? s i) [ none ↦ 0 | some c ↦ c ]

-- The target of the channel, or the line that is written in its place.
pub data Target : Type 0 where
  target explain : Bytes → Target

-- `main` for the position of `--target` in the argument.
unfoldable pub target_at : Bytes → Option ℕ → Target
target_at arg none = explain (codes "The only acceptable argument is --target=")
target_at arg (some at) =
    let start = at + length (codes "--target") in
    if char_at arg start == b'='
    then target (drop (start + 1) arg)
    else explain (codes "The only correct argument syntax is --target=")

-- `main` up to the channel, for `argv` without the program's name.
unfoldable pub target_of : List Bytes → Target
unfolding target_at
target_of [] = target (codes "localhost:50051")
target_of (arg ∷ args) = target_at arg (find arg (codes "--target"))

-- `main`: the lines that it writes. It returns 0.
unfoldable pub greeter_client_main : (Bytes → Stub) → List Bytes → List Bytes
greeter_client_main create_stub args = elim (target_of args) [
  | explain line ↦ line ∷ []
  | target address ↦
      let (reply, errors) = say_hello (create_stub address) (codes "world") in
      errors ++ ((codes "Greeter received: " ++ reply) ∷ [])
]
