-- ===== src/Server/Replies.antt =====
-- The payload creators of rt_server.cc, which build the replies.
pub mod Contents
pub mod Echoes
pub mod Unlogged
pub mod Overruns
use rpc_transport_tests.Prelude.{
  ℕ, zero, suc, ◌+◌, ◌-◌, ◌/◌, ◌==◌, if◌then◌else◌, none, some, List, [], ◌∷◌, ◌++◌, get_elem?, min,
}
use rpc_transport_tests.Prelude.Int.{ℤ, pos, pos_part}
use rpc_transport_tests.Memory.{
  Bytes, DataBuf, Msg, Cmd, pure, fault, ◌>>=◌, ◌>>◌, or_fault, resume, add_int,
}
use rpc_transport_tests.Proto.{Codec, Payload, of_hdr, of_data, w_rsp_hdr, r_rsp_hdr, e_rsp_hdr}
use rpc_transport_tests.Machine.{Machine, random_block, stop_clock, when_verbose}
use rpc_transport_tests.Transport.{Buffers, read_buf}
use rpc_transport_tests.Transport.Hex.{log_bytes}
use rpc_transport_tests.Payload.{add_to_msg}

-- The classes below PayloadCreator.
pub data RspCreator : Type 0 where
  write_rsp read_rsp echo_rsp : RspCreator

-- `duration_cast<microseconds>` of nanoseconds.
abbrev pub to_us : ℕ → ℕ
to_us ns = ns / 1000

module _ (codec : Codec) (env : Machine) where
  write_rsp_fill : Buffers → Cmd Buffers
  write_rsp_fill out =
      add_to_msg codec env (of_hdr (w_rsp_hdr (record { msg_process_time_us = 0 }))) out

  -- The first loop of `ReadRspPayloadCreator::fill`, with the rounds that are left.
  pub rand_data : ℤ → ℕ → List Bytes → Cmd (List Bytes)
  rand_data buf_len zero acc = pure acc
  rand_data buf_len (suc k) acc = do
    buf ← random_block env buf_len
    rand_data buf_len k (acc ++ (buf ∷ []))

  read_payload : List Bytes → ℕ → ℕ → Cmd Payload
  read_payload rand us i =
      if i == 0
      then pure (of_hdr (r_rsp_hdr (record { msg_process_time_us = us })))
      else elim (get_elem? rand (i - 1)) [ none ↦ (λ _. fault) | some buf ↦ pure (of_data buf) ]

  -- Its second loop.
  read_blocks : List Bytes → ℕ → ℕ → ℕ → Buffers → Cmd Buffers
  read_blocks rand us zero i out = pure out
  read_blocks rand us (suc k) i out = do
    payload ← read_payload rand us i
    out' ← add_to_msg codec env payload out
    read_blocks rand us k (i + 1) out'

  read_rsp_fill : Buffers → ℤ → ℤ → Cmd Buffers
  unfolding rand_data read_payload read_blocks
  read_rsp_fill out block_size block_count = do
    rand ← rand_data block_size (pos_part block_count) []
    ns ← stop_clock env
    n ← add_int block_count (pos 1)
    read_blocks rand (to_us ns) (pos_part n) 0 out

  -- The first loop of `EchoRspPayloadCreator::fill`.
  pub parse_bufs : List DataBuf → Cmd (List Payload)
  parse_bufs [] = pure []
  parse_bufs (b ∷ bs) = do str ← read_buf b; rest ← parse_bufs bs; pure (codec.parse str ∷ rest)

  -- The log line in its second loop: as many characters of the reply's buffer as the request's has,
  -- 100 at most.
  pub log_echoed : List DataBuf → List DataBuf → ℕ → Cmd (Unit {0})
  log_echoed orig reply i = do
    b ← or_fault (get_elem? orig i)
    log_bytes b.addr (min 100 b.len)
    r ← or_fault (get_elem? reply i)
    log_bytes r.addr (min 100 b.len)

  -- That loop, over the payloads that are left.
  echo_payloads : List DataBuf → ℕ → ℕ → List Payload → Buffers → Cmd Buffers
  unfolding log_echoed
  echo_payloads orig us i [] out = pure out
  echo_payloads orig us i (p ∷ ps) out = do
    let payload = if i == 0 then of_hdr (e_rsp_hdr (record { msg_process_time_us = us })) else p
    out' ← add_to_msg codec env payload out
    when_verbose env (if i == 1 then log_echoed orig out'.msg.bufs i else pure tt)
    echo_payloads orig us (i + 1) ps out'

  echo_rsp_fill : Msg → Buffers → Cmd Buffers
  unfolding parse_bufs echo_payloads
  echo_rsp_fill orig out = do
    echo_data ← parse_bufs orig.bufs
    ns ← stop_clock env
    echo_payloads orig.bufs (to_us ns) 0 echo_data out

  -- The virtual call `payloadCreator->fill`. Only the echo looks at the request.
  unfoldable pub rsp_fill : RspCreator → Msg → Buffers → ℤ → ℤ → Cmd Buffers
  unfolding write_rsp_fill read_rsp_fill echo_rsp_fill
  rsp_fill write_rsp orig out block_size block_count = write_rsp_fill out
  rsp_fill read_rsp orig out block_size block_count = read_rsp_fill out block_size block_count
  rsp_fill echo_rsp orig out block_size block_count = echo_rsp_fill orig out
