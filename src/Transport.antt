-- ===== src/Transport.antt =====
-- rt_client_server/transport.hpp and transport.cc: messages, the containers that own their
-- characters, and the receive function of a server.
pub mod Views
pub mod Hex
pub mod LogLines
pub mod Contracts
use rpc_transport_tests.Prelude.{ℕ, Option, none, some, List, [], ◌∷◌, ◌++◌, length}
use rpc_transport_tests.Memory.{
  Ptr, Bytes, DataBuf, Msg, string, Cmd, pure, raise, bad_function_call, ◌>>=◌, alloc, load_string,
  read_bytes, resume,
}

-- Owned pointers to strings.
abbrev pub MsgDataContainer : Type 0
MsgDataContainer = List Ptr

-- The two reference parameters that every message is built in.
pub record Buffers : Type 0 where
  pub msg : Msg
  pub container : MsgDataContainer

abbrev pub no_buffers : Buffers
no_buffers = record { msg = record { bufs = [] }; container = [] }

abbrev pub RcvFn : Type 0
RcvFn = Msg → Buffers → Cmd Buffers

-- The static member `Server::_rcvFn`, `none` for `nullptr`.
pub record ServerClass : Type 0 where
  pub rcv_fn : Option RcvFn

abbrev pub initial_class : ServerClass
initial_class = record { rcv_fn = none }

unfoldable pub set_rcv_fn : RcvFn → ServerClass → ServerClass
set_rcv_fn fn c = record c { rcv_fn = some fn }

-- A call of what `getRcvFn` returns. An empty `std::function` throws.
unfoldable pub call_rcv_fn : ServerClass → RcvFn
call_rcv_fn c req rsp = elim c.rcv_fn [ none ↦ raise bad_function_call | some fn ↦ fn req rsp ]

-- `msgData.push_back(std::move(str))`, then a view of `msgData.back()` behind the message.
unfoldable pub push_string : Bytes → Buffers → Cmd Buffers
unfolding alloc load_string
push_string s out = do
  p ← alloc (string s)
  back ← load_string p
  pure (record {
    msg = record { bufs = out.msg.bufs ++ (record { addr = p; len = length back } ∷ []) };
    container = out.container ++ (p ∷ []);
  })

-- `std::string str(buf._addr, buf._len)`
unfoldable pub read_buf : DataBuf → Cmd Bytes
unfolding read_bytes
read_buf b = read_bytes b.addr b.len

-- rt::Server and rt::Client: what their constructors keep.
pub record ServerBase : Type 0 where
  pub address : Bytes
  pub port : ℕ

unfoldable pub make_server_base : Bytes → ℕ → ServerBase
make_server_base address port = record { address = address; port = port }

pub record ClientBase : Type 0 where
  pub server_address : Bytes
  pub server_port : ℕ

unfoldable pub make_client_base : Bytes → ℕ → ClientBase
make_client_base address port = record { server_address = address; server_port = port }
