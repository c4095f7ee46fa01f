-- ===== src/Server/Replies/Unlogged.antt =====
-- The creators of rt_server.cc do the same with the log lines and without them, where those of an
-- echo read what is there.
use mathlib.Core.Path.{fun_ext}
use rpc_transport_tests.Prelude.{ℕ, zero, suc, ◌+◌, ◌<◌, ◌≡◌, refl, List, [], ◌∷◌, map, arith}
use rpc_transport_tests.Prelude.Int.{ℤ, pos_part}
use rpc_transport_tests.Memory.{Bytes, DataBuf, World}
use rpc_transport_tests.Proto.{Codec, Payload}
use rpc_transport_tests.Machine.{Machine, stop_clock, unlogged, random_block-unlogged}
use rpc_transport_tests.Transport.{Buffers, no_buffers}
use rpc_transport_tests.Transport.Views.{
  Shows, Keeps, Keeps-stored, Keeps-trans, Shows-Keeps, push_string-eq-pushed,
}
use rpc_transport_tests.Payload.Added.{add_to_msg-unlogged, add_to_msg-push}
use rpc_transport_tests.Server.Replies.{
  write_rsp, read_rsp, echo_rsp, rand_data, read_payload, read_blocks, write_rsp_fill,
  read_rsp_fill, echo_rsp_fill, echo_payloads, rsp_fill,
}
use rpc_transport_tests.Server.Replies.Echoes.{
  nothing_logged, third_round, second_logged, LogFits, parse_bufs-Shows,
}

module _ (codec : Codec) (env : Machine) where
  rand_data-unlogged :
      (len : ℤ) (k : ℕ) → rand_data codec env len k ≡ rand_data codec (unlogged env) len k
  unfolding rand_data
  rand_data-unlogged len zero = refl
  rand_data-unlogged len (suc k) =
      fun_ext λ acc. rw (random_block-unlogged env, rand_data-unlogged len k)

  read_blocks-unlogged :
      (rand : List Bytes) (us k : ℕ)
      → read_blocks codec env rand us k ≡ read_blocks codec (unlogged env) rand us k
  unfolding read_blocks read_payload
  read_blocks-unlogged rand us zero = refl
  read_blocks-unlogged rand us (suc k) =
      fun_ext λ i. fun_ext λ out. rw (add_to_msg-unlogged codec env, read_blocks-unlogged rand us k)

  all_blocks-unlogged : read_blocks codec env ≡ read_blocks codec (unlogged env)
  all_blocks-unlogged = fun_ext λ rand. fun_ext λ us. fun_ext (read_blocks-unlogged rand us)

  pub read_rsp_fill-unlogged : rsp_fill codec env read_rsp ≡ rsp_fill codec (unlogged env) read_rsp
  unfolding rsp_fill read_rsp_fill stop_clock
  read_rsp_fill-unlogged = fun_ext λ orig. fun_ext λ out.
      fun_ext
        λ size. fun_ext λ count. rw (rand_data-unlogged size (pos_part count), all_blocks-unlogged)

  pub write_rsp_fill-unlogged :
      rsp_fill codec env write_rsp ≡ rsp_fill codec (unlogged env) write_rsp
  unfolding rsp_fill write_rsp_fill
  write_rsp_fill-unlogged =
      fun_ext
        λ orig. fun_ext λ out. fun_ext λ size. fun_ext λ count. rw (add_to_msg-unlogged codec env)

  late_payloads-unlogged :
      (orig : List DataBuf) (us i : ℕ) (ps : List Payload) (out : Buffers) (w : World)
      → 1 < i
      → echo_payloads codec env orig us i ps out w
        ≡ echo_payloads codec (unlogged env) orig us i ps out w
  unfolding echo_payloads
  late_payloads-unlogged orig us i [] out w h = refl
  late_payloads-unlogged orig us i (p ∷ ps) out w h =
      let (header, logs) = third_round codec env i h in
      rw (
        header,
        logs,
        nothing_logged codec env,
        add_to_msg-unlogged codec env,
        add_to_msg-push codec (unlogged env) p,
        push_string-eq-pushed,
        late_payloads-unlogged orig us (i + 1) ps _ _ (omega arith),
      )

  second_payload-unlogged :
      (orig : List DataBuf) (us : ℕ) (c₀ : Bytes) (cs : List Bytes) (out : Buffers) (b₀ : DataBuf)
      (w : World)
      → Shows w orig (c₀ ∷ cs)
      → LogFits codec env cs
      → out.msg.bufs ≡ b₀ ∷ []
      → echo_payloads codec env orig us 1 (map codec.parse cs) out w
        ≡ echo_payloads codec (unlogged env) orig us 1 (map codec.parse cs) out w
  unfolding echo_payloads
  second_payload-unlogged orig us c₀ [] out b₀ w shown fits one = refl
  second_payload-unlogged orig us c₀ (c ∷ cs) out b₀ w shown fits one = rw (
    add_to_msg-unlogged codec env,
    add_to_msg-push codec (unlogged env) (codec.parse c),
    push_string-eq-pushed,
    second_logged codec env orig c₀ c cs out w shown fits (λ on. (b₀, one)),
    late_payloads-unlogged orig us 2 (map codec.parse cs) _ _ (omega arith),
  )

  pub echo_rsp_fill-unlogged :
      (bs : List DataBuf) (size count : ℤ) (c : Bytes) (cs : List Bytes) (w : World)
      → Shows w bs (c ∷ cs)
      → LogFits codec env cs
      → rsp_fill codec env echo_rsp (record { bufs = bs }) no_buffers size count w
        ≡ rsp_fill codec (unlogged env) echo_rsp (record { bufs = bs }) no_buffers size count w
  unfolding rsp_fill echo_rsp_fill stop_clock echo_payloads
  echo_rsp_fill-unlogged bs size count c cs w s fits =
      rw
        (
          parse_bufs-Shows codec env bs (c ∷ cs) w s,
          nothing_logged codec env,
          add_to_msg-unlogged codec env,
          add_to_msg-push codec (unlogged env) _,
          push_string-eq-pushed,
        )
        (second_payload-unlogged bs _ c cs _ _ _
          (Shows-Keeps bs (c ∷ cs) (Keeps-trans {v = v} later (Keeps-stored _ v)) s) fits refl)
    where
      v : World
      v = record w { intervals = suc w.intervals }

      later : Keeps w v
      later = record { grows = omega arith; same = λ p le. refl }
