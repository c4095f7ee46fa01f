-- ===== src/Tests/Fixtures.antt =====
-- A small codec, a machine and a memory to try the programs with.
use rpc_transport_tests.Prelude.{
  true, ℕ, zero, suc, ◌≡◌, ◌<◌, refl, [], ◌∷◌, length, All, ap, none, some, arith, codes, false,
}
use rpc_transport_tests.Prelude.Int.{ℤ, pos, negsuc}
use rpc_transport_tests.Memory.{Bytes, World, DataBuf, string, update}
use rpc_transport_tests.Proto.{
  Codec, IsCodec, Payload, payload_not_set, of_hdr, of_data, IsWire, Header, hdr_not_set, r_req_hdr,
  w_req_hdr, e_req_hdr, r_rsp_hdr, w_rsp_hdr, e_rsp_hdr,
}
use rpc_transport_tests.Machine.{Machine, IsMachine}
use rpc_transport_tests.Client.Run.{Sizes}
use rpc_transport_tests.Client.Main.{Flags}

abbrev sign : ℤ → ℕ
sign (pos n) = 0
sign (negsuc n) = 1

abbrev size : ℤ → ℕ
size (pos n) = n
size (negsuc n) = n

abbrev int_at : ℕ → ℕ → ℤ
int_at zero n = pos n
int_at (suc s) n = negsuc n

int_at-sign : (a : ℤ) → int_at (sign a) (size a) ≡ a
int_at-sign (pos n) = refl
int_at-sign (negsuc n) = refl

-- A tag, and two integers.
abbrev fields : ℕ → ℤ → ℤ → Bytes
fields t a b = t ∷ sign a ∷ size a ∷ sign b ∷ size b ∷ []

abbrev serialize_hdr : Header → Bytes
serialize_hdr hdr_not_set = fields 0 (pos 0) (pos 0)
serialize_hdr (r_req_hdr h) = fields 1 h.buf_count h.buf_size
serialize_hdr (w_req_hdr h) = fields 2 h.buf_count h.buf_size
serialize_hdr (e_req_hdr h) = fields 3 h.buf_count h.buf_size
serialize_hdr (r_rsp_hdr h) = fields 4 (pos h.msg_process_time_us) (pos 0)
serialize_hdr (w_rsp_hdr h) = fields 5 (pos h.msg_process_time_us) (pos 0)
serialize_hdr (e_rsp_hdr h) = fields 6 (pos h.msg_process_time_us) (pos 0)

abbrev hdr_at : ℕ → ℤ → ℤ → Header
hdr_at (suc zero) a b = r_req_hdr (record { buf_count = a; buf_size = b })
hdr_at (suc (suc zero)) a b = w_req_hdr (record { buf_count = a; buf_size = b })
hdr_at (suc (suc (suc zero))) a b = e_req_hdr (record { buf_count = a; buf_size = b })
hdr_at (suc (suc (suc (suc zero)))) (pos us) b = r_rsp_hdr (record { msg_process_time_us = us })
hdr_at (suc (suc (suc (suc (suc zero))))) (pos us) b =
    w_rsp_hdr (record { msg_process_time_us = us })
hdr_at (suc (suc (suc (suc (suc (suc zero)))))) (pos us) b =
    e_rsp_hdr (record { msg_process_time_us = us })
hdr_at _ a b = hdr_not_set

abbrev parse_hdr : Bytes → Header
parse_hdr (t ∷ s ∷ m ∷ s' ∷ m' ∷ []) = hdr_at t (int_at s m) (int_at s' m')
parse_hdr _ = hdr_not_set

parse_hdr-serialize_hdr : (h : Header) → parse_hdr (serialize_hdr h) ≡ h
parse_hdr-serialize_hdr hdr_not_set = refl
parse_hdr-serialize_hdr (r_req_hdr h) = rw (int_at-sign h.buf_count, int_at-sign h.buf_size)
parse_hdr-serialize_hdr (w_req_hdr h) = rw (int_at-sign h.buf_count, int_at-sign h.buf_size)
parse_hdr-serialize_hdr (e_req_hdr h) = rw (int_at-sign h.buf_count, int_at-sign h.buf_size)
parse_hdr-serialize_hdr (r_rsp_hdr h) = refl
parse_hdr-serialize_hdr (w_rsp_hdr h) = refl
parse_hdr-serialize_hdr (e_rsp_hdr h) = refl

abbrev serialize_payload : Payload → Bytes
serialize_payload payload_not_set = []
serialize_payload (of_data bs) = 0 ∷ bs
serialize_payload (of_hdr h) = 1 ∷ serialize_hdr h

abbrev parse_payload : Bytes → Payload
parse_payload [] = payload_not_set
parse_payload (zero ∷ bs) = of_data bs
parse_payload (suc t ∷ bs) = of_hdr (parse_hdr bs)

abbrev pub codec : Codec
codec = record { serialize = serialize_payload; parse = parse_payload }

codec_parse-serialize : (p : Payload) → IsWire p → codec.parse (codec.serialize p) ≡ p
codec_parse-serialize payload_not_set h = refl
codec_parse-serialize (of_data bs) h = refl
codec_parse-serialize (of_hdr h) wire = ap of_hdr (parse_hdr-serialize_hdr h)

pub codec-IsCodec : IsCodec codec
codec-IsCodec = record { parse-serialize = codec_parse-serialize }

abbrev sevens : ℕ → Bytes
sevens zero = []
sevens (suc n) = 7 ∷ sevens n

length-sevens : (n : ℕ) → length (sevens n) ≡ n
length-sevens zero = refl
length-sevens (suc n) = ap suc (length-sevens n)

sevens-All : (n : ℕ) → All (λ b. b < 256) (sevens n)
sevens-All zero = tt
sevens-All (suc n) = (omega arith, sevens-All n)

-- Every random byte is a 7, every interval has two milliseconds, and all log lines are written.
abbrev pub machine : Machine
machine = record { random = λ i n. sevens n; elapsed = λ i. 2000000; verbose = true }

pub machine-IsMachine : IsMachine machine
machine-IsMachine = record {
  length-random = λ i n. length-sevens n;
  random_bytes = λ i n. sevens-All n;
  elapsed_bound = λ i. omega arith;
}

abbrev pub empty_world : World
empty_world = record { cell = λ p. none; count = 0; draws = 0; intervals = 0 }

-- A memory with the strings `abc` at 1, `abc` at 2 and `abcd` at 3.
abbrev pub three_strings : World
three_strings = record empty_world {
  cell =
      update
        (update (update (λ p. none) 1 (some (string (codes "abc")))) 2
          (some (string (codes "abc"))))
        3 (some (string (codes "abcd")));
  count = 3;
}

abbrev pub buf : ℕ → ℕ → DataBuf
buf p n = record { addr = p; len = n }

abbrev pub small_sizes : Sizes
small_sizes = record { block_size = pos 3; block_count = pos 2; op_count = pos 2 }

abbrev pub echo_flags : Flags
echo_flags = record {
  transport = codes "grpc";
  workload = codes "echo";
  sizes = small_sizes;
  sodium_fails = false;
}
