-- ===== src/Client/Requests.antt =====
-- The payload creators of rt_client.cc, which build the requests.
pub mod Contents
pub mod Unlogged
use rpc_transport_tests.Prelude.{ℕ, zero, suc, ◌+◌, ◌==◌, if◌then◌else◌}
use rpc_transport_tests.Prelude.Int.{ℤ, pos, pos_part}
use rpc_transport_tests.Memory.{Cmd, pure, ◌>>=◌, add_int}
use rpc_transport_tests.Proto.{
  Codec, Payload, of_hdr, of_data, Header, w_req_hdr, r_req_hdr, e_req_hdr,
}
use rpc_transport_tests.Machine.{Machine, random_block}
use rpc_transport_tests.Transport.{Buffers}
use rpc_transport_tests.Payload.{add_to_msg}

-- The classes below PayloadCreator.
pub data ReqCreator : Type 0 where
  write_req read_req echo_req : ReqCreator

module _ (codec : Codec) (env : Machine) where
  -- The payload of round `i` in `WriteReqPayloadCreator::fill` and `EchoReqPayloadCreator::fill`.
  req_payload : Header → ℤ → ℕ → Cmd Payload
  req_payload hdr block_size i =
      if i == 0
      then pure (of_hdr hdr)
      else (do buf ← random_block env block_size; pure (of_data buf))

  -- The rounds that are left of their loop.
  fill_blocks : Header → ℤ → ℕ → ℕ → Buffers → Cmd Buffers
  fill_blocks hdr block_size zero i out = pure out
  fill_blocks hdr block_size (suc k) i out = do
    payload ← req_payload hdr block_size i
    out' ← add_to_msg codec env payload out
    fill_blocks hdr block_size k (i + 1) out'

  write_req_fill : Buffers → ℤ → ℤ → Cmd Buffers
  unfolding fill_blocks req_payload
  write_req_fill out block_size block_count = do
    n ← add_int block_count (pos 1)
    fill_blocks (w_req_hdr (record { buf_count = block_count; buf_size = block_size })) block_size
        (pos_part n) 0 out

  read_req_fill : Buffers → ℤ → ℤ → Cmd Buffers
  read_req_fill out block_size block_count =
      add_to_msg codec env
        (of_hdr (r_req_hdr (record { buf_count = block_count; buf_size = block_size }))) out

  echo_req_fill : Buffers → ℤ → ℤ → Cmd Buffers
  unfolding fill_blocks req_payload
  echo_req_fill out block_size block_count = do
    n ← add_int block_count (pos 1)
    fill_blocks (e_req_hdr (record { buf_count = block_count; buf_size = block_size })) block_size
        (pos_part n) 0 out

  -- The virtual call `payloadCreator->fill`.
  unfoldable pub req_fill : ReqCreator → Buffers → ℤ → ℤ → Cmd Buffers
  unfolding write_req_fill read_req_fill echo_req_fill
  req_fill write_req = write_req_fill
  req_fill read_req = read_req_fill
  req_fill echo_req = echo_req_fill
