-- ===== src/Proto.antt =====
-- rt_client_server/rt.proto: the messages. Protocol Buffers itself is the parameter `Codec`.
use rpc_transport_tests.Prelude.{ℕ, ◌-◌, ◌<◌, ◌^◌, ◌≡◌, length, All, Option, none, some}
use rpc_transport_tests.Prelude.Int.{ℤ, IsInt32}
use rpc_transport_tests.Memory.{Bytes}

pub record ReadReqHeader : Type 0 where
  pub buf_count : ℤ
  pub buf_size : ℤ

pub record WriteReqHeader : Type 0 where
  pub buf_count : ℤ
  pub buf_size : ℤ

pub record EchoReqHeader : Type 0 where
  pub buf_count : ℤ
  pub buf_size : ℤ

pub record ReadRspHeader : Type 0 where
  pub msg_process_time_us : ℕ

pub record WriteRspHeader : Type 0 where
  pub msg_process_time_us : ℕ

pub record EchoRspHeader : Type 0 where
  pub msg_process_time_us : ℕ

pub data Header : Type 0 where
  hdr_not_set : Header
  r_req_hdr : ReadReqHeader → Header
  w_req_hdr : WriteReqHeader → Header
  r_rsp_hdr : ReadRspHeader → Header
  w_rsp_hdr : WriteRspHeader → Header
  e_req_hdr : EchoReqHeader → Header
  e_rsp_hdr : EchoRspHeader → Header

-- `of_data` holds the bytes of the message `Data`.
pub data Payload : Type 0 where
  payload_not_set : Payload
  of_hdr : Header → Payload
  of_data : Bytes → Payload

-- `has_hdr` and `hdr` in one.
abbrev pub hdr_of : Payload → Option Header
hdr_of (of_hdr h) = some h
hdr_of _ = none

-- `SerializeToString`, and the message that `ParseFromString` leaves, whatever it returns.
pub record Codec : Type 0 where
  pub serialize : Payload → Bytes
  pub parse : Bytes → Payload

abbrev IsByte : ℕ → Type 0
IsByte b = b < 256

abbrev IsWireHeader : Header → Type 0
IsWireHeader hdr_not_set = Unit {0}
IsWireHeader (r_req_hdr h) = IsInt32 h.buf_count × IsInt32 h.buf_size
IsWireHeader (w_req_hdr h) = IsInt32 h.buf_count × IsInt32 h.buf_size
IsWireHeader (e_req_hdr h) = IsInt32 h.buf_count × IsInt32 h.buf_size
IsWireHeader (r_rsp_hdr h) = h.msg_process_time_us < 2 ^ 64
IsWireHeader (w_rsp_hdr h) = h.msg_process_time_us < 2 ^ 64
IsWireHeader (e_rsp_hdr h) = h.msg_process_time_us < 2 ^ 64

-- The messages that the format can carry: `bytes` are bytes, and a serialized message stays
-- below the limit of 2 GiB if its data stay 64 bytes below it.
abbrev pub IsBlock : Bytes → Type 0
IsBlock bs = All IsByte bs × (length bs < 2 ^ 31 - 64)

abbrev pub IsWire : Payload → Type 0
IsWire payload_not_set = Unit {0}
IsWire (of_hdr h) = IsWireHeader h
IsWire (of_data bs) = IsBlock bs

-- What the format promises: a message comes back from its serialized form.
pub record IsCodec (c : Codec) : Type 0 where
  pub parse-serialize : (p : Payload) → IsWire p → c.parse (c.serialize p) ≡ p
