-- ===== src/Client/Validator.antt =====
-- The reply validators of rt_client.cc.
pub mod Covered
pub mod Unlogged
use rpc_transport_tests.Prelude.{
  ℕ, Bool, true, false, ◌&&◌, ◌==◌, min, if◌then◌else◌, List, [], ◌∷◌, length,
}
use rpc_transport_tests.Memory.{
  Ptr, Bytes, DataBuf, Msg, Cmd, pure, fault, ◌>>=◌, ◌>>◌, resume, read_bytes,
}
use rpc_transport_tests.Machine.{Machine, when_verbose}
use rpc_transport_tests.Transport.Hex.{log_bytes}

abbrev pub bytes_eq : Bytes → Bytes → Bool
bytes_eq [] [] = true
bytes_eq (x ∷ xs) (y ∷ ys) = (x == y) && bytes_eq xs ys
bytes_eq _ _ = false

-- `0 == memcmp(a, b, n)`
same_mem : Ptr → Ptr → ℕ → Cmd Bool
same_mem a b n = do x ← read_bytes a n; y ← read_bytes b n; pure (bytes_eq x y)

-- The log line of a mismatch: as many characters as were compared, 100 at most.
log_mismatch : DataBuf → DataBuf → Cmd (Unit {0})
log_mismatch b r = do log_bytes b.addr (min 100 b.len); log_bytes r.addr (min 100 b.len)

-- The loop of `EchoReplyValidator::isValid`, over the buffers that are left. It indexes the reply.
same_bufs : Machine → List DataBuf → List DataBuf → Cmd Bool
same_bufs env [] rs = pure true
same_bufs env (b ∷ bs) [] = λ _. fault
same_bufs env (b ∷ bs) (r ∷ rs) = do
  same ← same_mem b.addr r.addr b.len
  let rest = same_bufs env bs rs
  if same then rest else (do when_verbose env (log_mismatch b r); pure false)

abbrev tail : List DataBuf → List DataBuf
tail [] = []
tail (b ∷ bs) = bs

-- `EchoReplyValidator::isValid`. The header is not compared.
echo_is_valid : Machine → Msg → Msg → Cmd Bool
unfolding same_bufs same_mem log_mismatch
echo_is_valid env req reply =
    if length req.bufs == length reply.bufs
    then same_bufs env (tail req.bufs) (tail reply.bufs)
    else pure false

-- The classes from ReplyValidator on.
pub data ReplyValidator : Type 0 where
  any_reply echo_reply : ReplyValidator

-- The virtual call `replyValidator->isValid`.
unfoldable pub is_valid : Machine → ReplyValidator → Msg → Msg → Cmd Bool
unfolding echo_is_valid
is_valid env any_reply req reply = pure true
is_valid env echo_reply req reply = echo_is_valid env req reply
