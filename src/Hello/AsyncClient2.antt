-- ===== src/Hello/AsyncClient2.antt =====
-- transport_hello_world/grpc/greeter_async_client2.cc: a thread that makes the calls, and one that
-- completes them. gRPC's runtime is a parameter: what the service answers, when a call is finished,
-- and in which order the completion queue gives the tags. The `ok` of a finished call is true, as
-- gRPC documents for `Finish`.
pub mod Soundness
pub mod Completion
use rpc_transport_tests.Prelude.{
  set, Bool, true, false, ℕ, suc, ◌+◌, ◌<◌, ◌≡◌, Option, none, some, List, [], ◌∷◌, ◌++◌, codes,
}
use mathlib.Core.Option as Option
use rpc_transport_tests.Prelude.Decimal.{to_string}
use rpc_transport_tests.Memory.{Bytes}
use rpc_transport_tests.Transports.Grpc.{Status, status_ok, status_error}

-- AsyncClientCall: the status and the message that the runtime writes there.
pub record AsyncClientCall : Type 0 where
  pub status : Status
  pub message : Bytes

-- What the runtime holds for a tag: a request that is under way, or an event in the queue.
pub data Pending : Type 0 where
  under_way : Bytes → Pending
  event : Pending

-- GreeterClient with the two threads: the calls by their addresses, which serve as tags, the
-- counter of `main`'s loop, whether `main` has written its own lines, what was written, and the tags that were taken, the last one first.
pub record GreeterClient : Type 0 where
  pub calls : ℕ → Option AsyncClientCall
  pub count : ℕ
  pub pending : ℕ → Option Pending
  pub i : ℕ
  pub prompted : Bool
  pub written : List Bytes
  pub taken : List ℕ

abbrev pub initial_client : GreeterClient
initial_client = record {
  calls = λ tag. none;
  count = 0;
  pending = λ tag. none;
  i = 0;
  prompted = false;
  written = [];
  taken = [];
}

abbrev pub new_call : AsyncClientCall
new_call = record { status = status_ok; message = [] }

-- `GreeterClient::SayHello`
unfoldable pub say_hello : Bytes → GreeterClient → GreeterClient
say_hello user g = record g {
  calls = set g.calls g.count (some new_call);
  count = suc g.count;
  pending = set g.pending g.count (some (under_way user));
}

-- The name that `main`'s loop makes.
unfoldable pub user_of : ℕ → Bytes
user_of i = codes "world " ++ to_string i

-- The line for a call that is complete.
unfoldable pub line_of : Status → Bytes → Bytes
line_of status_ok message = codes "Greeter received: " ++ message
line_of (status_error code text) message = codes "RPC failed"

-- The body of `AsyncCompleteRpc` for a tag, or `none` where no call lives there.
unfoldable pub async_complete_rpc : ℕ → GreeterClient → Option GreeterClient
async_complete_rpc tag g =
    Option.map
      (λ call. record g {
        calls = set g.calls tag none;
        written = g.written ++ (line_of call.status call.message ∷ []);
        taken = tag ∷ g.taken;
      })
      (g.calls tag)

-- The lines that `main` writes behind its loop.
abbrev pub prompt_lines : List Bytes
prompt_lines = codes "Press control-c to quit" ∷ [] ∷ []

-- One thing after another: `main` says hello, `main` has made its calls and writes that it waits
-- (what a statement writes is taken as one), the service's answer to a request comes, or the
-- reader thread takes an event.
pub data Step (serve : Bytes → Status × Bytes) : GreeterClient → GreeterClient → Type 0 where
  say :
      {g : GreeterClient}
      → g.i < 100
      → Step serve g (record (say_hello (user_of g.i) g) { i = g.i + 1 })
  prompt :
      {g : GreeterClient}
      → g.i ≡ 100
      → g.prompted ≡ false
      → Step serve g (record g { prompted = true; written = g.written ++ prompt_lines })
  arrive :
      {g : GreeterClient} (tag : ℕ) (user : Bytes) (call : AsyncClientCall)
      → g.calls tag ≡ some call
      → g.pending tag ≡ some (under_way user)
      → Step serve g (record g {
        calls =
            set g.calls tag (some (record { status = (serve user).0; message = (serve user).1 }));
        pending = set g.pending tag (some event);
      })
  complete :
      {g g' : GreeterClient} (tag : ℕ)
      → g.pending tag ≡ some event
      → async_complete_rpc tag (record g { pending = set g.pending tag none }) ≡ some g'
      → Step serve g g'

pub data Reach (serve : Bytes → Status × Bytes) : GreeterClient → Type 0 where
  started : Reach serve initial_client
  next : {g g' : GreeterClient} → Reach serve g → Step serve g g' → Reach serve g'
