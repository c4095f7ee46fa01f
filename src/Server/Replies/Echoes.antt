-- ===== src/Server/Replies/Echoes.antt =====
-- What the echo replies of rt_server.cc hold.
use rpc_transport_tests.Prelude.{
  ℕ, suc, ◌≤◌, min, Bool-cases, inl, inr, true, ◌+◌, ◌<◌, ◌≡◌, refl, List, [], ◌∷◌, ◌++◌, map,
  arith, length, ◌==◌, false,
}
use native.Mathlib.Nat.{min-le_right}
use mathlib.Core.List.{map-map}
use rpc_transport_tests.Prelude.Int.{ℤ}
use rpc_transport_tests.Memory.{ok, pure, Bytes, World, DataBuf, Msg}
use rpc_transport_tests.Proto.{Codec, Payload, of_hdr, e_rsp_hdr}
use rpc_transport_tests.Machine.{Machine, when_verbose, when_verbose-ok, stop_clock}
use rpc_transport_tests.Transport.{Buffers}
use rpc_transport_tests.Transport.Hex.{log_bytes-ok}
use rpc_transport_tests.Transport.Views.{
  Appends, Appends-nil, Appends-Keeps, Shows, Holds, Keeps, Holds-Keeps, read_buf-ok, stored,
  pushed, Shows-Keeps, Keeps-stored, Keeps-trans,
}
use rpc_transport_tests.Payload.Added.{add_then}
use rpc_transport_tests.Server.Replies.{
  echo_rsp, rsp_fill, parse_bufs, echo_payloads, log_echoed, to_us,
}

module _ (codec : Codec) (env : Machine) where
  -- The payloads of a request whose strings are shown.
  pub parse_bufs-Shows :
      (bs : List DataBuf) (cs : List Bytes) (w : World)
      → Shows w bs cs
      → parse_bufs codec env bs w ≡ ok (map codec.parse cs) w
  unfolding parse_bufs
  parse_bufs-Shows [] [] w s = refl
  parse_bufs-Shows [] (c ∷ cs) w s = absurd s
  parse_bufs-Shows (b ∷ bs) [] w s = absurd s
  parse_bufs-Shows (b ∷ bs) (c ∷ cs) w (l, e, le, ne, s) =
      rw (read_buf-ok b c w l e ne, parse_bufs-Shows bs cs w s)

  pub third_round : (i : ℕ) → 1 < i → ((i == 0) ≡ false) × ((i == 1) ≡ false)
  third_round i h = (ground arith, ground arith)

  pub nothing_logged : when_verbose env (pure tt) ≡ pure tt
  nothing_logged = elim (Bool-cases env.verbose) [ inl on ↦ rw on | inr off ↦ rw off ]

  echo_payloads-Holds :
      (orig : List DataBuf) (us i : ℕ) (ps : List Payload) (out : Buffers) (cs : List Bytes)
      (w : World)
      → 1 < i
      → Holds w out cs
      → Appends w out cs (map codec.serialize ps) (echo_payloads codec env orig us i ps out w)
  unfolding echo_payloads
  echo_payloads-Holds orig us i [] out cs w h holds = Appends-nil out cs w holds
  echo_payloads-Holds orig us i (p ∷ ps) out cs w h holds =
      let (header, logs) = third_round i h in
      rw (header, logs, nothing_logged)
        (add_then codec env _ _ out cs w _ holds
          (echo_payloads-Holds orig us (i + 1) ps _ _ _ (omega arith)))

  -- The log line is about the second buffer of the request and the one that was pushed for it.
  log_echoed-ok :
      (orig : List DataBuf) (c₀ c s : Bytes) (cs : List Bytes) (out : Buffers) (b₀ : DataBuf)
      (w : World)
      → Shows w orig (c₀ ∷ c ∷ cs)
      → out.msg.bufs ≡ b₀ ∷ []
      → min 100 (length c) ≤ length s + 1
      → log_echoed codec env orig (pushed s out w).msg.bufs 1 (stored s w) ≡ ok tt (stored s w)
  unfolding log_echoed
  log_echoed-ok (a ∷ b ∷ bs) c₀ c s cs out b₀ w shown one fits =
      let (_, _, _, _, (l, at, le, ne, _)) =
        Shows-Keeps (a ∷ b ∷ bs) (c₀ ∷ c ∷ cs) (Keeps-stored s w) shown in
      rw (
        one,
        l,
        log_bytes-ok b.addr (min 100 (length c)) c (stored s w) at ne
            (omega (arith, min-le_right 100 (length c))),
        log_bytes-ok (suc w.count) (min 100 (length c)) s (stored s w) (ground arith) (omega arith)
            fits,
      )
  log_echoed-ok [] c₀ c s cs out b₀ w shown one fits = absurd shown
  log_echoed-ok (a ∷ []) c₀ c s cs out b₀ w shown one fits = absurd shown.4

  -- What the log line reads is there: the string that is echoed first is not much longer than what
  -- it is serialized to again.
  abbrev pub LogFits : List Bytes → Type 0
  LogFits [] = Unit {0}
  LogFits (c ∷ cs) =
      env.verbose ≡ true → min 100 (length c) ≤ length (codec.serialize (codec.parse c)) + 1

  pub second_logged :
      (orig : List DataBuf) (c₀ c : Bytes) (cs : List Bytes) (out : Buffers) (w : World)
      → Shows w orig (c₀ ∷ c ∷ cs)
      → LogFits (c ∷ cs)
      → (env.verbose ≡ true → (b₀ : DataBuf) × (out.msg.bufs ≡ b₀ ∷ []))
      → when_verbose env
          (log_echoed codec env orig (pushed (codec.serialize (codec.parse c)) out w).msg.bufs 1)
          (stored (codec.serialize (codec.parse c)) w)
        ≡ ok tt (stored (codec.serialize (codec.parse c)) w)
  second_logged orig c₀ c cs out w shown fits one =
      when_verbose-ok env _ _
        λ on. let (b₀, e) = one on in log_echoed-ok orig c₀ c _ cs out b₀ w shown e (fits on)

  echo_payloads-second :
      (orig : List DataBuf) (us : ℕ) (c₀ : Bytes) (cs : List Bytes) (out : Buffers)
      (before : List Bytes) (w : World)
      → Shows w orig (c₀ ∷ cs)
      → Holds w out before
      → LogFits cs
      → (env.verbose ≡ true → (b₀ : DataBuf) × (out.msg.bufs ≡ b₀ ∷ []))
      → Appends w out before
          (map codec.serialize (map codec.parse cs))
          (echo_payloads codec env orig us 1 (map codec.parse cs) out w)
  unfolding echo_payloads
  echo_payloads-second orig us c₀ [] out before w shown holds fits one =
      Appends-nil out before w holds
  echo_payloads-second orig us c₀ (c ∷ cs) out before w shown holds fits one =
      add_then codec env _ _ out before w _ holds λ h.
        rw (second_logged orig c₀ c cs out w shown fits one)
          (echo_payloads-Holds orig us 2 (map codec.parse cs) _ _ _ (omega arith) h)

  abbrev pub echo_answer : ℕ → List Bytes → List Bytes
  echo_answer t cs =
      codec.serialize (of_hdr (e_rsp_hdr (record { msg_process_time_us = to_us (env.elapsed t) })))
      ∷ map (λ c. codec.serialize (codec.parse c)) cs

  pub first_pushed :
      (s : Bytes) (v w : World) (out : Buffers) (before : List Bytes)
      → Holds w out before
      → before ≡ []
      → (b₀ : DataBuf) × ((pushed s out v).msg.bufs ≡ b₀ ∷ [])
  first_pushed s v w out before h e = none_shown out.msg.bufs (rw e at h.shows)
    where
      none_shown :
          (bs : List DataBuf)
          → Shows w bs []
          → (b₀ : DataBuf) × (bs ++ (record { addr = suc v.count; len = length s } ∷ []) ≡ b₀ ∷ [])
      none_shown [] s = (_, refl)
      none_shown (b ∷ bs) s = absurd s

  pub echo_rsp_fill-Appends :
      (orig : Msg) (size count : ℤ) (c : Bytes) (cs : List Bytes) (out : Buffers)
      (before : List Bytes) (w : World)
      → Shows w orig.bufs (c ∷ cs)
      → Holds w out before
      → LogFits cs
      → (env.verbose ≡ true → before ≡ [])
      → Appends w out before
          (echo_answer w.intervals cs)
          (rsp_fill codec env echo_rsp orig out size count w)
  unfolding rsp_fill stop_clock echo_payloads
  echo_rsp_fill-Appends orig size count c cs out before w s h fits first =
      rw (parse_bufs-Shows orig.bufs (c ∷ cs) w s, nothing_logged)
        (Appends-Keeps {w = v} out before _ later refl (
          add_then codec env _ (map (λ c. codec.serialize (codec.parse c)) cs) out before v _
            (Holds-Keeps later h)
            λ h'. rw (← map-map codec.serialize codec.parse cs) (
              echo_payloads-second orig.bufs _ c cs _ _ _
                (Shows-Keeps orig.bufs (c ∷ cs) (Keeps-trans later (Keeps-stored _ v)) s) h' fits
                λ on. first_pushed _ v w out before h (first on))))
    where
      v : World
      v = record w { intervals = suc w.intervals }

      later : Keeps w v
      later = record { grows = omega arith; same = λ p le. refl }
