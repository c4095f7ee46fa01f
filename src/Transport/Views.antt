-- ===== src/Transport/Views.antt =====
-- What a message shows in a memory.
use mathlib.Core.List.{map-append, append-nil, append_assoc}
use rpc_transport_tests.Prelude.{
  ℕ, zero, suc, ◌+◌, sym, ◌≤◌, ◌≡◌, ◌≢◌, refl, some, List, [], ◌∷◌, ◌++◌, map, length, arith,
  take-length-append, ◌∙◌, ap,
}
use rpc_transport_tests.Memory.{
  Ptr, null, Bytes, DataBuf, string, World, Run, Cmd, resume, ok, update,
}
use rpc_transport_tests.Memory.Yields
use rpc_transport_tests.Memory.Yields.{Yields, yields}
use rpc_transport_tests.Transport.{Buffers, push_string, read_buf}

-- The buffers view live strings, with these characters, each over its whole length.
abbrev pub Shows : World → List DataBuf → List Bytes → Type 0
Shows w [] [] = Unit {0}
Shows w (b ∷ bs) (c ∷ cs) =
    (b.len ≡ length c)
    × (w.cell b.addr ≡ some (string c))
    × (b.addr ≤ w.count)
    × (b.addr ≢ null)
    × Shows w bs cs
Shows w [] (c ∷ cs) = ⊥
Shows w (b ∷ bs) [] = ⊥

-- The container owns just the strings that the message views.
pub record Holds (w : World) (out : Buffers) (cs : List Bytes) : Type 0 where
  pub shows : Shows w out.msg.bufs cs
  pub owns : out.container ≡ map (λ b. b.addr) out.msg.bufs

-- `w'` has all objects of `w` as they were.
pub record Keeps (w w' : World) : Type 0 where
  pub grows : w.count ≤ w'.count
  pub same : (p : Ptr) → p ≤ w.count → w'.cell p ≡ w.cell p

pub Keeps-refl : (w : World) → Keeps w w
Keeps-refl w = record { grows = omega arith; same = λ p h. refl }

pub Keeps-trans : {u v w : World} → Keeps u v → Keeps v w → Keeps u w
Keeps-trans {u} {v} {w} h k = record {
  grows = omega (arith, h.grows, k.grows);
  same = λ p le. k.same p (omega (arith, h.grows)) ∙ h.same p le;
}

pub Shows-Keeps :
    {w w' : World} (bs : List DataBuf) (cs : List Bytes)
    → Keeps w w'
    → Shows w bs cs
    → Shows w' bs cs
Shows-Keeps [] [] k s = tt
Shows-Keeps [] (c ∷ cs) k s = s
Shows-Keeps (b ∷ bs) [] k s = s
Shows-Keeps (b ∷ bs) (c ∷ cs) k (l, e, le, ne, s) =
    (l, k.same b.addr le ∙ e, omega (arith, k.grows), ne, Shows-Keeps bs cs k s)

pub Shows-append :
    (w : World) (bs bs' : List DataBuf) (cs cs' : List Bytes)
    → Shows w bs cs
    → Shows w bs' cs'
    → Shows w (bs ++ bs') (cs ++ cs')
Shows-append w [] bs' [] cs' s t = t
Shows-append w [] bs' (c ∷ cs) cs' s t = absurd s
Shows-append w (b ∷ bs) bs' [] cs' s t = absurd s
Shows-append w (b ∷ bs) bs' (c ∷ cs) cs' (l, e, le, ne, s) t =
    (l, e, le, ne, Shows-append w bs bs' cs cs' s t)

pub length-Shows :
    (w : World) (bs : List DataBuf) (cs : List Bytes) → Shows w bs cs → length bs ≡ length cs
length-Shows w [] [] s = refl
length-Shows w [] (c ∷ cs) s = absurd s
length-Shows w (b ∷ bs) [] s = absurd s
length-Shows w (b ∷ bs) (c ∷ cs) (_, _, _, _, s) = ap suc (length-Shows w bs cs s)

-- The memory and the buffers behind a push.
abbrev pub stored : Bytes → World → World
stored s w = record w { cell = update w.cell (suc w.count) (some (string s)); count = suc w.count }

abbrev pub pushed : Bytes → Buffers → World → Buffers
pushed s out w = record {
  msg = record { bufs = out.msg.bufs ++ (record { addr = suc w.count; len = length s } ∷ []) };
  container = out.container ++ (suc w.count ∷ []);
}

pub push_string-eq-pushed :
    (s : Bytes) (out : Buffers) (w : World) → push_string s out w ≡ ok (pushed s out w) (stored s w)
unfolding push_string
push_string-eq-pushed s out w = ground arith

pub Keeps-stored : (s : Bytes) (w : World) → Keeps w (stored s w)
Keeps-stored s w = record { grows = omega arith; same = λ p h. ground arith }

pub Shows-stored :
    (s : Bytes) (w : World)
    → Shows (stored s w) (record { addr = suc w.count; len = length s } ∷ []) (s ∷ [])
Shows-stored s w = (refl, ground arith, omega arith, omega arith, tt)

pub Holds-Keeps :
    {w w' : World} {out : Buffers} {cs : List Bytes} → Keeps w w' → Holds w out cs → Holds w' out cs
Holds-Keeps {out} {cs} k h = record { shows = Shows-Keeps out.msg.bufs cs k h.shows; owns = h.owns }

-- A push leaves all objects as they are, and shows one string more.
pub pushed-Holds :
    (s : Bytes) (out : Buffers) (cs : List Bytes) (w : World)
    → Holds w out cs
    → Holds (stored s w) (pushed s out w) (cs ++ (s ∷ []))
pushed-Holds s out cs w h = record { shows = shows; owns = rw (h.owns, map-append) }
  where
    b : DataBuf
    b = record { addr = suc w.count; len = length s }

    shows : Shows (stored s w) (out.msg.bufs ++ (b ∷ [])) (cs ++ (s ∷ []))
    shows =
        Shows-append (stored s w) out.msg.bufs (b ∷ []) cs (s ∷ [])
          (Shows-Keeps out.msg.bufs cs (Keeps-stored s w) h.shows) (Shows-stored s w)

-- The next `k` addresses behind `n`.
abbrev pub made : ℕ → ℕ → List Ptr
made n zero = []
made n (suc k) = suc n ∷ made (suc n) k

-- `w'` has all objects of `w` as they were, and one new string for each of `ss`, which the container
-- has got.
pub record Makes (w : World) (out : Buffers) (ss : List Bytes) (w' : World) (out' : Buffers)
    : Type 0 where
  pub keeps : Keeps w w'
  pub count : w'.count ≡ w.count + length ss
  pub owned : out'.container ≡ out.container ++ made w.count (length ss)

-- The run ends with buffers that hold the strings `ss` behind `cs`, keeps every object of `w`, and
-- makes no object that the container does not own.
abbrev pub Appends : World → Buffers → List Bytes → List Bytes → Run Buffers → Type 0
Appends w out cs ss = Yields λ out' w'. Holds w' out' (cs ++ ss) × Makes w out ss w' out'

pub Appends-nil :
    (out : Buffers) (cs : List Bytes) (w : World) → Holds w out cs → Appends w out cs [] (ok out w)
Appends-nil out cs w h = yields (
  rw append-nil h,
  record { keeps = Keeps-refl w; count = omega arith; owned = sym (append-nil _) },
)

pub Appends-Keeps :
    {v w : World} (out : Buffers) (cs ss : List Bytes) {r : Run Buffers}
    → Keeps v w
    → w.count ≡ v.count
    → Appends w out cs ss r
    → Appends v out cs ss r
Appends-Keeps out cs ss k e a = Yields.weaken a λ out' w' (h, m). (
  h,
  record {
    keeps = Keeps-trans k m.keeps;
    count = omega (arith, m.count, e);
    owned = m.owned ∙ ap (λ n. out.container ++ made n (length ss)) e;
  },
)

pushed-Makes :
    (s : Bytes) (ss : List Bytes) (out : Buffers) (w : World) {w' : World} {out' : Buffers}
    → Makes (stored s w) (pushed s out w) ss w' out'
    → Makes w out (s ∷ ss) w' out'
pushed-Makes s ss out w m = record {
  keeps = Keeps-trans (Keeps-stored s w) m.keeps;
  count = omega (arith, m.count);
  owned = m.owned ∙ append_assoc out.container (suc w.count ∷ []) _;
}

-- A push, and a run that goes on from it.
pub push_then :
    (s : Bytes) (ss : List Bytes) (out : Buffers) (cs : List Bytes) (w : World)
    (k : Buffers → Cmd Buffers)
    → Holds w out cs
    → (Holds (stored s w) (pushed s out w) (cs ++ (s ∷ []))
        → Appends
            (stored s w)
            (pushed s out w)
            (cs ++ (s ∷ []))
            ss
            (k (pushed s out w) (stored s w)))
    → Appends w out cs (s ∷ ss) (resume (push_string s out w) k)
push_then s ss out cs w k h rest = rw push_string-eq-pushed (
    Yields.weaken (rest (pushed-Holds s out cs w h))
      λ out' w' (holds, makes). (rw append_assoc at holds, pushed-Makes s ss out w makes))

pub push_string-Appends :
    (s : Bytes) (out : Buffers) (cs : List Bytes) (w : World)
    → Holds w out cs
    → Appends w out cs (s ∷ []) (push_string s out w)
push_string-Appends s out cs w h = rw push_string-eq-pushed (
    yields (
      pushed-Holds s out cs w h,
      record { keeps = Keeps-stored s w; count = omega arith; owned = refl },
    ))

pub read_buf-ok :
    (b : DataBuf) (c : Bytes) (w : World)
    → b.len ≡ length c
    → w.cell b.addr ≡ some (string c)
    → b.addr ≢ null
    → read_buf b w ≡ ok c w
unfolding read_buf
read_buf-ok b c w l e ne = ground (arith, take-length-append c (0 ∷ []))
