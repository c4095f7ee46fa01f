-- ===== src/Transport/LogLines.antt =====
-- The log lines that write the string that a container got last.
use rpc_transport_tests.Prelude.{suc, back, back-append, length, ◌≡◌, arith}
use rpc_transport_tests.Memory.{Bytes, World, Cmd, ok, ◌>>=◌, or_fault, load_string}
use rpc_transport_tests.Transport.{Buffers, MsgDataContainer}
use rpc_transport_tests.Transport.Hex.{log_bytes, log_bytes-ok}
use rpc_transport_tests.Transport.Views.{pushed, stored}

-- `bytesToHex((uint8_t *)msgData.back()->c_str(), msgData.back()->size())`
unfoldable pub log_back : MsgDataContainer → Cmd (Unit {0})
log_back container = do p ← or_fault (back container); s ← load_string p; log_bytes p (length s)

load_string-stored :
    (s : Bytes) (w : World) → load_string (suc w.count) (stored s w) ≡ ok s (stored s w)
unfolding load_string
load_string-stored s w = ground arith

pub log_back-pushed :
    (s : Bytes) (out : Buffers) (w : World)
    → log_back (pushed s out w).container (stored s w) ≡ ok tt (stored s w)
unfolding log_back
log_back-pushed s out w = rw (
  back-append out.container (suc w.count),
  load_string-stored s w,
  log_bytes-ok (suc w.count) (length s) s (stored s w) (ground arith) (omega arith) (omega arith),
)
