-- ===== src/Client/Validator/Unlogged.antt =====
-- The validators of rt_client.cc do the same with the log lines and without them.
use mathlib.Core.Path.{fun_ext}
use native.Mathlib.Nat.{min-le_right}
use rpc_transport_tests.Prelude.{min, ◌≡◌, refl, Bool-cases, inl, inr, List, [], ◌∷◌}
use rpc_transport_tests.Memory.{DataBuf, World, ok}
use rpc_transport_tests.Machine.{Machine, unlogged, when_verbose, when_verbose-ok}
use rpc_transport_tests.Transport.Hex.{log_bytes, read_bytes-cases}
use rpc_transport_tests.Client.Validator.{
  ReplyValidator, any_reply, echo_reply, same_mem, same_bufs, log_mismatch, echo_is_valid, is_valid,
  bytes_eq,
}

module _ (env : Machine) where
  logged :
      (b r : DataBuf) (w : World)
      → log_bytes b.addr (min 100 b.len) w ≡ ok tt w
      → log_bytes r.addr (min 100 b.len) w ≡ ok tt w
      → when_verbose env (log_mismatch b r) w ≡ ok tt w
  unfolding log_mismatch
  logged b r w e e' = when_verbose-ok env _ w λ on. rw (e, e')

  same_bufs-unlogged :
      (bs rs : List DataBuf) (w : World) → same_bufs env bs rs w ≡ same_bufs (unlogged env) bs rs w
  unfolding same_bufs same_mem
  same_bufs-unlogged [] rs w = refl
  same_bufs-unlogged (b ∷ bs) [] w = refl
  same_bufs-unlogged (b ∷ bs) (r ∷ rs) w = elim (read_bytes-cases b.addr b.len w) [
    | inl first ↦ rw first
    | inr (xs, first, logs) ↦ elim (read_bytes-cases r.addr b.len w) [
      | inl second ↦ rw (first, second)
      | inr (ys, second, logs') ↦
          rw (first, second)
            (elim (Bool-cases (bytes_eq xs ys)) [
              | inl same ↦ rw same (same_bufs-unlogged bs rs w)
              | inr other ↦ rw (
                other,
                logged b r w (logs _ (min-le_right 100 b.len)) (logs' _ (min-le_right 100 b.len)),
              )
            ])
    ]
  ]

  pub is_valid-unlogged : is_valid env ≡ is_valid (unlogged env)
  unfolding is_valid echo_is_valid
  is_valid-unlogged = fun_ext same
    where
      all_bufs : same_bufs env ≡ same_bufs (unlogged env)
      all_bufs = fun_ext λ bs. fun_ext λ rs. fun_ext (same_bufs-unlogged bs rs)

      same : (v : ReplyValidator) → is_valid env v ≡ is_valid (unlogged env) v
      same any_reply = refl
      same echo_reply = fun_ext λ req. fun_ext λ reply. rw all_bufs
