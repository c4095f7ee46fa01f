-- ===== src/Hello/AsyncClient2/Completion.antt =====
-- What becomes of the calls of greeter_async_client2.cc.
use rpc_transport_tests.Prelude.{
  ℕ, zero, suc, ◌≡◌, refl, none, some, List, [], ◌∷◌, ◌++◌, set, ==_refl,
}
use mathlib.Core.List.{Perm}
use mathlib.Core.List.Perm
use rpc_transport_tests.Memory.{Bytes}
use rpc_transport_tests.Transports.Grpc.{Status}
use rpc_transport_tests.Hello.AsyncClient2.{GreeterClient, event, async_complete_rpc, Reach}
use rpc_transport_tests.Hello.AsyncClient2.Soundness.{
  answer_line, Reach-IsSound, event_call, completed,
}

-- The numbers below a number.
abbrev pub upto : ℕ → List ℕ
upto zero = []
upto (suc n) = n ∷ upto n

-- An event that the loop takes is one of a live call, whose line is written and which is deleted.
pub Reach-complete :
    (serve : Bytes → Status × Bytes) (g : GreeterClient) (tag : ℕ)
    → Reach serve g
    → g.pending tag ≡ some event
    → (g' : GreeterClient) × (async_complete_rpc tag (record g { pending = set g.pending tag none })
        ≡ some g')
      × (g'.calls tag ≡ none)
      × (g'.written ≡ g.written ++ (answer_line serve tag ∷ []))
unfolding async_complete_rpc
Reach-complete serve g tag r waits =
    let (call, here, status, message) = event_call serve g tag (Reach-IsSound serve r) waits in
    (completed serve tag call g, rw here refl, rw (==_refl tag) refl, rw (status, message) refl)
