-- ===== src/Client/Requests/Contents.antt =====
-- What the requests of rt_client.cc hold.
use rpc_transport_tests.Prelude.{
  ℕ, zero, suc, ◌+◌, ◌-◌, ◌<◌, ◌^◌, ◌≡◌, refl, List, [], ◌∷◌, map, arith,
}
use rpc_transport_tests.Prelude.Int.{ℤ, pos, negsuc, ◌+ℤ◌}
use rpc_transport_tests.Memory.{ok, throw, fault, bad_alloc, Bytes, World, add_int}
use rpc_transport_tests.Memory.Ints.{count_rounds}
use rpc_transport_tests.Proto.{Codec, of_hdr, of_data, Header, w_req_hdr, r_req_hdr, e_req_hdr}
use rpc_transport_tests.Machine.{Machine, random_block, drawn}
use rpc_transport_tests.Transport.{Buffers}
use rpc_transport_tests.Transport.Views.{
  Appends, Appends-nil, Appends-Keeps, Holds, Keeps, Holds-Keeps, pushed, stored,
  push_string-eq-pushed,
}
use rpc_transport_tests.Payload.Added.{add_to_msg-push, add_then, add_to_msg-Appends}
use rpc_transport_tests.Client.Requests.{
  req_payload, fill_blocks, ReqCreator, write_req, read_req, echo_req, req_fill,
}

module _ (codec : Codec) (env : Machine) where
  abbrev pub of_blocks : List Bytes → List Bytes
  of_blocks = map (λ b. codec.serialize (of_data b))

  req_payload_block :
      (hdr : Header) (n i : ℕ) (w : World)
      → 0 < i
      → req_payload codec env hdr (pos n) i w
        ≡ ok (of_data (env.random w.draws n)) (record w { draws = suc w.draws })
  unfolding req_payload random_block
  req_payload_block hdr n i w h = ground arith

  fill_blocks-drawn :
      (hdr : Header) (n k i : ℕ) (out : Buffers) (cs : List Bytes) (w : World)
      → 0 < i
      → Holds w out cs
      → Appends w out cs
          (of_blocks (drawn env w.draws n k))
          (fill_blocks codec env hdr (pos n) k i out w)
  unfolding fill_blocks
  fill_blocks-drawn hdr n zero i out cs w pos_i h = Appends-nil out cs w h
  fill_blocks-drawn hdr n (suc k) i out cs w pos_i h = rw (req_payload_block hdr n i w pos_i) (
      Appends-Keeps out cs _ drew refl (
        add_then codec env _ _ out cs v _ (Holds-Keeps drew h)
          (fill_blocks-drawn hdr n k (i + 1) _ _ _ (omega arith))))
    where
      v : World
      v = record w { draws = suc w.draws }

      drew : Keeps w v
      drew = record { grows = omega arith; same = λ p le. refl }

  header_only :
      (hdr : Header) (size : ℤ) (k : ℕ) (out : Buffers) (w : World)
      → fill_blocks codec env hdr size (suc k) 0 out w
        ≡ fill_blocks codec env hdr size k 1
            (pushed (codec.serialize (of_hdr hdr)) out w)
            (stored (codec.serialize (of_hdr hdr)) w)
  unfolding fill_blocks req_payload
  header_only hdr size k out w = rw (add_to_msg-push, push_string-eq-pushed)

  fill_blocks-Holds :
      (hdr : Header) (n k : ℕ) (out : Buffers) (cs : List Bytes) (w : World)
      → Holds w out cs
      → Appends w out cs
          ((codec.serialize (of_hdr hdr) ∷ of_blocks (drawn env w.draws n k)))
          (fill_blocks codec env hdr (pos n) (suc k) 0 out w)
  unfolding fill_blocks req_payload
  fill_blocks-Holds hdr n k out cs w h =
      add_then codec env _ _ out cs w _ h (fill_blocks-drawn hdr n k 1 _ _ _ (omega arith))

  -- The header by which a request announces its blocks.
  abbrev pub req_header : ReqCreator → ℤ → ℤ → Header
  req_header write_req size count = w_req_hdr (record { buf_count = count; buf_size = size })
  req_header read_req size count = r_req_hdr (record { buf_count = count; buf_size = size })
  req_header echo_req size count = e_req_hdr (record { buf_count = count; buf_size = size })

  -- The strings of a request: its header, and the random blocks unless it reads.
  abbrev pub request : ReqCreator → ℕ → ℕ → ℕ → List Bytes
  request read_req i size count =
      codec.serialize (of_hdr (req_header read_req (pos size) (pos count))) ∷ []
  request c i size count =
      codec.serialize (of_hdr (req_header c (pos size) (pos count)))
      ∷ of_blocks (drawn env i size count)

  -- Where the count of the blocks and one more fits an int, each creator of requests ends with a
  -- value and appends its header, and its random blocks unless it reads. What was in memory stays,
  -- and each string that is made is owned by the container.
  pub req_fill-request :
      (c : ReqCreator) (size count : ℕ) (out : Buffers) (cs : List Bytes) (w : World)
      → count + 1 < 2 ^ 31
      → Holds w out cs
      → Appends w out cs
          (request c w.draws size count)
          (req_fill codec env c out (pos size) (pos count) w)
  unfolding req_fill
  req_fill-request read_req size count out cs w fits h = add_to_msg-Appends codec env _ out cs w h
  req_fill-request write_req size count out cs w fits h =
      rw (count_rounds count fits) (fill_blocks-Holds _ size count out cs w h)
  req_fill-request echo_req size count out cs w fits h =
      rw (count_rounds count fits) (fill_blocks-Holds _ size count out cs w h)

  -- A creator that sends its blocks.
  abbrev pub SendsBlocks : ReqCreator → Type 0
  SendsBlocks read_req = ⊥
  SendsBlocks _ = Unit {0}

  pub req_fill_negative_count :
      (c : ReqCreator) (size : ℤ) (n : ℕ) (out : Buffers) (w : World)
      → SendsBlocks c
      → n < 2 ^ 31
      → req_fill codec env c out size (negsuc n) w ≡ ok out w
  unfolding req_fill fill_blocks add_int ◌+ℤ◌
  req_fill_negative_count write_req size n out w s h = ground arith
  req_fill_negative_count read_req size n out w s h = absurd s
  req_fill_negative_count echo_req size n out w s h = ground arith

  req_fill_max_count :
      (c : ReqCreator) (size : ℤ) (out : Buffers) (w : World)
      → SendsBlocks c
      → req_fill codec env c out size (pos (2 ^ 31 - 1)) w ≡ fault
  unfolding req_fill add_int ◌+ℤ◌
  req_fill_max_count write_req size out w s = refl
  req_fill_max_count read_req size out w s = absurd s
  req_fill_max_count echo_req size out w s = refl

  fill_blocks_negative_size :
      (hdr : Header) (n k : ℕ) (out : Buffers) (w : World)
      → fill_blocks codec env hdr (negsuc n) (suc (suc k)) 0 out w
        ≡ throw bad_alloc (stored (codec.serialize (of_hdr hdr)) w)
  unfolding fill_blocks req_payload random_block
  fill_blocks_negative_size hdr n k out w = rw header_only

  req_fill_negative_size :
      (c : ReqCreator) (n count : ℕ) (out : Buffers) (w : World)
      → SendsBlocks c
      → count + 2 < 2 ^ 31
      → req_fill codec env c out (negsuc n) (pos (suc count)) w
        ≡ throw bad_alloc
            (stored (codec.serialize (of_hdr (req_header c (negsuc n) (pos (suc count))))) w)
  unfolding req_fill
  req_fill_negative_size write_req n count out w s h =
      rw (count_rounds (suc count) (omega arith)) (fill_blocks_negative_size _ n count out w)
  req_fill_negative_size read_req n count out w s h = absurd s
  req_fill_negative_size echo_req n count out w s h =
      rw (count_rounds (suc count) (omega arith)) (fill_blocks_negative_size _ n count out w)

  -- A creator that sends blocks has undefined behaviour at the largest int count, appends nothing
  -- at a negative count, and at a negative size and a positive count throws std::bad_alloc with
  -- only the header stored.
  pub req_fill_limits :
      (c : ReqCreator) (size : ℤ) (n count : ℕ) (out : Buffers) (w : World)
      → SendsBlocks c
      → n < 2 ^ 31
      → count + 2 < 2 ^ 31
      → (req_fill codec env c out size (pos (2 ^ 31 - 1)) w ≡ fault)
        × (req_fill codec env c out size (negsuc n) w ≡ ok out w)
        × (req_fill codec env c out (negsuc n) (pos (suc count)) w
            ≡ throw bad_alloc
                (stored (codec.serialize (of_hdr (req_header c (negsuc n) (pos (suc count))))) w))
  req_fill_limits c size n count out w s low high = (
    req_fill_max_count c size out w s,
    req_fill_negative_count c size n out w s low,
    req_fill_negative_size c n count out w s high,
  )
