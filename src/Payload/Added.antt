-- ===== src/Payload/Added.antt =====
-- What `addToMsg` adds to a message, whatever it logs.
use mathlib.Core.Path.{fun_ext}
use native.Mathlib.Nat.{min-le_right}
use rpc_transport_tests.Prelude.{
  back-append, sym, ◌∙◌, min, suc, ◌≡◌, some, List, [], ◌∷◌, ◌++◌, length, arith, ltb, Bool-cases,
  inl, inr,
}
use rpc_transport_tests.Memory.{Bytes, World, Cmd, ok, string, resume}
use rpc_transport_tests.Proto.{Codec, Payload}
use rpc_transport_tests.Machine.{Machine, unlogged}
use rpc_transport_tests.Transport.{Buffers, push_string}
use rpc_transport_tests.Transport.Hex.{log_bytes-ok}
use rpc_transport_tests.Transport.LogLines.{log_back-pushed}
use rpc_transport_tests.Transport.Views.{
  Appends, Holds, push_then, push_string-Appends, pushed, stored, push_string-eq-pushed,
}
use rpc_transport_tests.Payload.{log_added, add_to_msg}

-- The log lines read the string that was pushed, and nothing else.
log_added-pushed :
    (s : Bytes) (out : Buffers) (w : World)
    → log_added (pushed s out w) (stored s w) ≡ ok tt (stored s w)
unfolding log_added
log_added-pushed s out w =
    rw
      (
        back-append out.msg.bufs (record { addr = suc w.count; len = length s }),
        log_bytes-ok (suc w.count) (min 100 (length s)) s (stored s w) here (omega arith)
            (omega (arith, min-le_right 100 (length s))),
      )
      (elim (Bool-cases (ltb (length s) 100)) [
        | inl short ↦ rw (short, log_back-pushed s out w)
        | inr long ↦ rw long
      ])
  where
    here : (stored s w).cell (suc w.count) ≡ some (string s)
    here = ground arith

module _ (codec : Codec) (env : Machine) where
  -- Whatever is logged, `addToMsg` is the push of the serialized payload.
  pub add_to_msg-push :
      (payload : Payload) → add_to_msg codec env payload ≡ push_string (codec.serialize payload)
  unfolding add_to_msg
  add_to_msg-push payload = fun_ext λ out. fun_ext λ w. elim (Bool-cases env.verbose) [
    | inl on ↦ rw (on, push_string-eq-pushed, log_added-pushed)
    | inr off ↦ rw (off, push_string-eq-pushed)
  ]

  -- `push_then` and `push_string-Appends` for a payload.
  pub add_then :
      (payload : Payload) (ss : List Bytes) (out : Buffers) (cs : List Bytes) (w : World)
      (k : Buffers → Cmd Buffers)
      → Holds w out cs
      → (Holds
            (stored (codec.serialize payload) w)
            (pushed (codec.serialize payload) out w)
            (cs ++ (codec.serialize payload ∷ []))
          → Appends
              (stored (codec.serialize payload) w)
              (pushed (codec.serialize payload) out w)
              (cs ++ (codec.serialize payload ∷ []))
              ss
              (k (pushed (codec.serialize payload) out w) (stored (codec.serialize payload) w)))
      → Appends w out cs
          (codec.serialize payload ∷ ss)
          (resume (add_to_msg codec env payload out w) k)
  add_then payload ss out cs w k h rest =
      rw add_to_msg-push (push_then (codec.serialize payload) ss out cs w k h rest)

  pub add_to_msg-Appends :
      (payload : Payload) (out : Buffers) (cs : List Bytes) (w : World)
      → Holds w out cs
      → Appends w out cs (codec.serialize payload ∷ []) (add_to_msg codec env payload out w)
  add_to_msg-Appends payload out cs w h = rw add_to_msg-push (push_string-Appends _ out cs w h)

pub add_to_msg-unlogged :
    (codec : Codec) (env : Machine) → add_to_msg codec env ≡ add_to_msg codec (unlogged env)
add_to_msg-unlogged codec env =
    fun_ext λ p. add_to_msg-push codec env p ∙ sym (add_to_msg-push codec (unlogged env) p)
