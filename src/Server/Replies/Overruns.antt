-- ===== src/Server/Replies/Overruns.antt =====
-- An echo of rt_server.cc whose log line reads behind the reply's string.
use native.Mathlib.Nat.{min-le_right}
use rpc_transport_tests.Prelude.{suc, min, ◌+◌, ◌<◌, ◌≡◌, refl, true, List, [], ◌∷◌, length, arith}
use rpc_transport_tests.Prelude.Int.{ℤ}
use rpc_transport_tests.Memory.{Bytes, DataBuf, World, Cmd, fault, resume}
use rpc_transport_tests.Proto.{Codec, of_hdr, e_rsp_hdr}
use rpc_transport_tests.Machine.{Machine, when_verbose, stop_clock}
use rpc_transport_tests.Transport.{Buffers, no_buffers}
use rpc_transport_tests.Transport.Hex.{log_bytes-ok, log_bytes-fault}
use rpc_transport_tests.Transport.Views.{
  Shows, Keeps, Keeps-stored, Keeps-trans, Shows-Keeps, pushed, stored, push_string-eq-pushed,
}
use rpc_transport_tests.Payload.Added.{add_to_msg-push}
use rpc_transport_tests.Server.Replies.{echo_rsp, rsp_fill, log_echoed, echo_payloads, to_us}
use rpc_transport_tests.Server.Replies.Echoes.{nothing_logged, parse_bufs-Shows}

module _ (codec : Codec) (env : Machine) (on : env.verbose ≡ true) where
  logged_fault :
      {B : Type 0} (trace : Cmd (Unit {0})) (k : Unit {0} → Cmd B) (w : World)
      → trace w ≡ fault
      → resume (when_verbose env trace w) k ≡ fault
  logged_fault trace k w e = rw (on, e)

  log_echoed-fault :
      (orig : List DataBuf) (c₀ c s : Bytes) (cs : List Bytes) (out : Buffers) (b₀ : DataBuf)
      (w : World)
      → Shows w orig (c₀ ∷ c ∷ cs)
      → out.msg.bufs ≡ b₀ ∷ []
      → length s + 1 < min 100 (length c)
      → log_echoed codec env orig (pushed s out w).msg.bufs 1 (stored s w) ≡ fault
  unfolding log_echoed
  log_echoed-fault (a ∷ b ∷ bs) c₀ c s cs out b₀ w shown one long =
      let (_, _, _, _, (l, at, le, ne, _)) =
        Shows-Keeps (a ∷ b ∷ bs) (c₀ ∷ c ∷ cs) (Keeps-stored s w) shown in
      rw (
        one,
        l,
        log_bytes-ok b.addr (min 100 (length c)) c (stored s w) at ne
            (omega (arith, min-le_right 100 (length c))),
        log_bytes-fault (suc w.count) (min 100 (length c)) s (stored s w) (ground arith) long,
      )
  log_echoed-fault [] c₀ c s cs out b₀ w shown one long = absurd shown
  log_echoed-fault (a ∷ []) c₀ c s cs out b₀ w shown one long = absurd shown.4

  pub echo_rsp_fill-fault :
      (bs : List DataBuf) (size count : ℤ) (c₀ c : Bytes) (cs : List Bytes) (w : World)
      → Shows w bs (c₀ ∷ c ∷ cs)
      → length (codec.serialize (codec.parse c)) + 1 < min 100 (length c)
      → rsp_fill codec env echo_rsp (record { bufs = bs }) no_buffers size count w ≡ fault
  unfolding rsp_fill stop_clock echo_payloads
  echo_rsp_fill-fault bs size count c₀ c cs w s long =
      rw
        (
          parse_bufs-Shows codec env bs (c₀ ∷ c ∷ cs) w s,
          nothing_logged codec env,
          add_to_msg-push codec env _,
          push_string-eq-pushed,
          add_to_msg-push codec env (codec.parse c),
          push_string-eq-pushed,
        )
        (logged_fault _ _ _ (
          log_echoed-fault bs c₀ c _ cs (pushed head no_buffers v)
            (record { addr = suc v.count; len = length head }) (stored head v)
            (Shows-Keeps bs (c₀ ∷ c ∷ cs) (Keeps-trans {v = v} later (Keeps-stored _ v)) s) refl
            long))
    where
      v : World
      v = record w { intervals = suc w.intervals }

      later : Keeps w v
      later = record { grows = omega arith; same = λ p le. refl }

      head : Bytes
      head =
          codec.serialize
            (of_hdr (e_rsp_hdr (record { msg_process_time_us = to_us (env.elapsed w.intervals) })))
