-- ===== src/Server/Replies/Contents.antt =====
-- What the replies of rt_server.cc hold.
use rpc_transport_tests.Prelude.{
  ℕ, zero, suc, ◌+◌, ◌-◌, ◌<◌, ◌^◌, ◌≡◌, refl, List, [], ◌∷◌, ◌++◌, map, arith, sym, ◌∙◌, length,
  get_elem?-append, ◌==◌, false, length-append,
}
use mathlib.Core.List.{append_assoc, append-nil}
use rpc_transport_tests.Prelude.Int.{ℤ, pos}
use rpc_transport_tests.Memory.{ok, pure, Bytes, World, Msg}
use rpc_transport_tests.Memory.Ints.{count_rounds}
use rpc_transport_tests.Proto.{Codec, of_hdr, of_data, w_rsp_hdr, r_rsp_hdr}
use rpc_transport_tests.Machine.{Machine, random_block, drawn, stop_clock, length-drawn}
use rpc_transport_tests.Transport.{Buffers}
use rpc_transport_tests.Transport.Views.{
  Appends, Appends-nil, Appends-Keeps, Holds, Keeps, Holds-Keeps,
}
use rpc_transport_tests.Payload.Added.{add_then, add_to_msg-Appends}
use rpc_transport_tests.Server.Replies.{
  write_rsp, read_rsp, rsp_fill, rand_data, read_payload, read_blocks, to_us,
}

module _ (codec : Codec) (env : Machine) where
  draws_eq : (d k : ℕ) → suc d + k ≡ d + suc k
  draws_eq d k = omega arith

  later_round : (i : ℕ) → 0 < i → (i == 0) ≡ false
  later_round i h = ground arith

  pub rand_data-drawn :
      (n k : ℕ) (acc : List Bytes) (w : World)
      → rand_data codec env (pos n) k acc w
        ≡ ok (acc ++ drawn env w.draws n k) (record w { draws = w.draws + k })
  unfolding rand_data random_block
  rand_data-drawn n zero acc w = ground (arith, append-nil acc)
  rand_data-drawn n (suc k) acc w = rw (rand_data-drawn n k, append_assoc) (rw (draws_eq w.draws k))

  block_payload :
      (rand : List Bytes) (us : ℕ) (front : List Bytes) (b : Bytes) (rest : List Bytes) (i : ℕ)
      → rand ≡ front ++ (b ∷ rest)
      → i ≡ suc (length front)
      → read_payload codec env rand us i ≡ pure (of_data b)
  unfolding read_payload
  block_payload rand us front b rest i whole e =
      rw (later_round i (omega arith), previous) (rw (whole, get_elem?-append front b rest))
    where
      previous : i - 1 ≡ length front
      previous = omega arith

  read_blocks-Holds :
      (rand : List Bytes) (us : ℕ) (front rest : List Bytes) (i : ℕ) (out : Buffers)
      (cs : List Bytes) (w : World)
      → rand ≡ front ++ rest
      → i ≡ suc (length front)
      → Holds w out cs
      → Appends w out cs
          (map (λ b. codec.serialize (of_data b)) rest)
          (read_blocks codec env rand us (length rest) i out w)
  unfolding read_blocks
  read_blocks-Holds rand us front [] i out cs w whole e h = Appends-nil out cs w h
  read_blocks-Holds rand us front (b ∷ rest) i out cs w whole e h =
      rw (block_payload rand us front b rest i whole e) (
        add_then codec env _ _ out cs w _ h (
          read_blocks-Holds rand us (front ++ (b ∷ [])) rest (i + 1) _ _ _
            (whole ∙ sym (append_assoc front (b ∷ []) rest))
            (omega (arith, length-append front (b ∷ [])))))

  rounds_Holds :
      (rand : List Bytes) (us : ℕ) (front rest : List Bytes) (k i : ℕ) (out : Buffers)
      (cs : List Bytes) (w : World)
      → k ≡ length rest
      → rand ≡ front ++ rest
      → i ≡ suc (length front)
      → Holds w out cs
      → Appends w out cs
          (map (λ b. codec.serialize (of_data b)) rest)
          (read_blocks codec env rand us k i out w)
  rounds_Holds rand us front rest k i out cs w n whole e h =
      rw n (read_blocks-Holds rand us front rest i out cs w whole e h)

  -- The replies, by the numbers of random draws and of measured intervals before the call.
  abbrev pub write_answer : List Bytes
  write_answer = codec.serialize (of_hdr (w_rsp_hdr (record { msg_process_time_us = 0 }))) ∷ []

  abbrev pub read_answer : ℕ → ℕ → ℕ → ℕ → List Bytes
  read_answer d t size count =
      codec.serialize (of_hdr (r_rsp_hdr (record { msg_process_time_us = to_us (env.elapsed t) })))
      ∷ map (λ b. codec.serialize (of_data b)) (drawn env d size count)

  pub write_rsp_fill-Appends :
      (orig : Msg) (size count : ℤ) (out : Buffers) (cs : List Bytes) (w : World)
      → Holds w out cs
      → Appends w out cs write_answer (rsp_fill codec env write_rsp orig out size count w)
  unfolding rsp_fill
  write_rsp_fill-Appends orig size count out cs w h = add_to_msg-Appends codec env _ out cs w h

  pub read_rsp_fill-Appends :
      (orig : Msg) (size count : ℕ) (out : Buffers) (cs : List Bytes) (w : World)
      → count + 1 < 2 ^ 31
      → Holds w out cs
      → Appends w out cs
          (read_answer w.draws w.intervals size count)
          (rsp_fill codec env read_rsp orig out (pos size) (pos count) w)
  unfolding rsp_fill stop_clock read_blocks read_payload
  read_rsp_fill-Appends orig size count out cs w fits h =
      rw (rand_data-drawn size count [] w) rw (count_rounds count fits) (
        Appends-Keeps {w = v} out cs _ later refl (
          add_then codec env _ _ out cs v _ (Holds-Keeps later h) (
            rounds_Holds _ _ [] _ count 1 _ _ _ (sym (length-drawn env w.draws size count)) refl
              refl)))
    where
      v : World
      v = record w { draws = w.draws + count; intervals = suc w.intervals }

      later : Keeps w v
      later = record { grows = omega arith; same = λ p le. refl }
