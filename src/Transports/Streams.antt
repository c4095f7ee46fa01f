-- ===== src/Transports/Streams.antt =====
-- The loops that the transports share: strings that come in are stored, and the strings of a
-- message are copied out.
use rpc_transport_tests.Prelude.{
  ℕ, zero, suc, ◌<◌, some, take, length, get_elem?, arith, ◌≡◌, refl, List, [], ◌∷◌, ◌++◌,
}
use mathlib.Core.List.{append-nil, append_assoc}
use rpc_transport_tests.Memory.{Bytes, DataBuf, World, ok, Cmd, pure, ◌>>=◌, ◌>>◌, free}
use rpc_transport_tests.Memory.Yields
use rpc_transport_tests.Memory.Yields.{Yields, yields}
use rpc_transport_tests.Transport.{Buffers, no_buffers, MsgDataContainer, push_string, read_buf}
use rpc_transport_tests.Transport.Contracts.{Quiet}
use rpc_transport_tests.Transport.Views.{
  Shows, Holds, Keeps-refl, Keeps-trans, Keeps-stored, pushed-Holds, push_string-eq-pushed,
  read_buf-ok, Appends, Appends-nil, push_then,
}

-- `while (stream->Read(&req)) { ... }` over the strings that come.
unfoldable pub receive : List Bytes → Buffers → Cmd Buffers
receive [] out = pure out
receive (s ∷ ss) out = do out' ← push_string s out; receive ss out'

-- `for (const auto &buf : sndMsg._bufs)`: the strings that are copied and written.
unfoldable pub copy_bufs : List DataBuf → Cmd (List Bytes)
copy_bufs [] = pure []
copy_bufs (b ∷ bs) = do s ← read_buf b; ss ← copy_bufs bs; pure (s ∷ ss)

-- The end of a container's life.
unfoldable pub release : MsgDataContainer → Cmd (Unit {0})
release [] = pure tt
release (p ∷ ps) = free p >> release ps

-- What came is held behind what was there.
pub receive-Holds :
    (ss : List Bytes) (out : Buffers) (cs : List Bytes) (w : World)
    → Holds w out cs
    → Yields (λ out' w'. Holds w' out' (cs ++ ss) × Quiet w w') (receive ss out w)
unfolding receive
receive-Holds [] out cs w h =
    yields (rw append-nil h, record { keeps = Keeps-refl w; draws = refl; intervals = refl })
receive-Holds (s ∷ ss) out cs w h = rw push_string-eq-pushed (
    Yields.weaken (receive-Holds ss _ _ _ (pushed-Holds s out cs w h)) λ out' w' (holds, quiet). (
      rw append_assoc at holds,
      record {
        keeps = Keeps-trans (Keeps-stored s w) quiet.keeps;
        draws = quiet.draws;
        intervals = quiet.intervals;
      },
    ))

pub receive-Appends :
    (ss : List Bytes) (out : Buffers) (cs : List Bytes) (w : World)
    → Holds w out cs
    → Appends w out cs ss (receive ss out w)
unfolding receive
receive-Appends [] out cs w h = Appends-nil out cs w h
receive-Appends (s ∷ ss) out cs w h = push_then s ss out cs w _ h (receive-Appends ss _ _ _)

-- A copy of the strings that are shown.
pub copy_bufs-Shows :
    (bs : List DataBuf) (cs : List Bytes) (w : World) → Shows w bs cs → copy_bufs bs w ≡ ok cs w
unfolding copy_bufs
copy_bufs-Shows [] [] w s = refl
copy_bufs-Shows [] (c ∷ cs) w s = absurd s
copy_bufs-Shows (b ∷ bs) [] w s = absurd s
copy_bufs-Shows (b ∷ bs) (c ∷ cs) w (l, e, le, ne, s) =
    rw (read_buf-ok b c w l e ne, copy_bufs-Shows bs cs w s)

pub no_buffers-Holds : (w : World) → Holds w no_buffers []
no_buffers-Holds w = record { shows = tt; owns = refl }

pub take_all : (cs : List Bytes) → take (length cs) cs ≡ cs
take_all [] = refl
take_all (c ∷ cs) = rw (take_all cs)

pub take_next :
    (cs : List Bytes) (c : Bytes) (i : ℕ)
    → get_elem? cs i ≡ some c
    → take i cs ++ (c ∷ []) ≡ take (suc i) cs
take_next [] c i h = absurd (cc h)
take_next (d ∷ cs) c zero h = cc
take_next (d ∷ cs) c (suc i) h = rw (take_next cs c i h)

-- The buffer at an index, and the string that it shows.
pub Shows-get_elem? :
    (w : World) (bs : List DataBuf) (cs : List Bytes) (i : ℕ)
    → Shows w bs cs
    → i < length cs
    → (b : DataBuf) × (c : Bytes) × (get_elem? bs i ≡ some b)
      × (get_elem? cs i ≡ some c)
      × (read_buf b w ≡ ok c w)
Shows-get_elem? w [] [] i s h = absurd (omega (arith, h))
Shows-get_elem? w [] (c ∷ cs) i s h = absurd s
Shows-get_elem? w (b ∷ bs) [] i s h = absurd s
Shows-get_elem? w (b ∷ bs) (c ∷ cs) zero (l, at, le, ne, s) h =
    (b, c, refl, refl, read_buf-ok b c w l at ne)
Shows-get_elem? w (b ∷ bs) (c ∷ cs) (suc i) (l, at, le, ne, s) h =
    Shows-get_elem? w bs cs i s (omega (arith, h))
