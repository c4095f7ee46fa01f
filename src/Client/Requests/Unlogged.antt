-- ===== src/Client/Requests/Unlogged.antt =====
-- The creators of rt_client.cc do the same with the log lines and without them.
use mathlib.Core.Path.{fun_ext}
use rpc_transport_tests.Prelude.{ℕ, zero, suc, ◌≡◌, refl}
use rpc_transport_tests.Prelude.Int.{ℤ}
use rpc_transport_tests.Proto.{Codec, Header}
use rpc_transport_tests.Machine.{Machine, unlogged, random_block-unlogged}
use rpc_transport_tests.Payload.Added.{add_to_msg-unlogged}
use rpc_transport_tests.Client.Requests.{
  ReqCreator, write_req, read_req, echo_req, fill_blocks, req_payload, write_req_fill,
  read_req_fill, echo_req_fill, req_fill,
}

module _ (codec : Codec) (env : Machine) where
  req_payload-unlogged : req_payload codec env ≡ req_payload codec (unlogged env)
  unfolding req_payload
  req_payload-unlogged = fun_ext λ hdr. fun_ext λ size. fun_ext λ i. rw (random_block-unlogged env)

  fill_blocks-unlogged :
      (hdr : Header) (size : ℤ) (k : ℕ)
      → fill_blocks codec env hdr size k ≡ fill_blocks codec (unlogged env) hdr size k
  unfolding fill_blocks
  fill_blocks-unlogged hdr size zero = refl
  fill_blocks-unlogged hdr size (suc k) = fun_ext λ i. fun_ext λ out.
      rw (req_payload-unlogged, add_to_msg-unlogged codec env, fill_blocks-unlogged hdr size k)

  all_blocks-unlogged : fill_blocks codec env ≡ fill_blocks codec (unlogged env)
  all_blocks-unlogged = fun_ext λ hdr. fun_ext λ size. fun_ext (fill_blocks-unlogged hdr size)

  pub req_fill-unlogged : (c : ReqCreator) → req_fill codec env c ≡ req_fill codec (unlogged env) c
  unfolding req_fill write_req_fill read_req_fill echo_req_fill
  req_fill-unlogged write_req =
      fun_ext λ out. fun_ext λ size. fun_ext λ count. rw all_blocks-unlogged
  req_fill-unlogged read_req =
      fun_ext λ out. fun_ext λ size. fun_ext λ count. rw (add_to_msg-unlogged codec env)
  req_fill-unlogged echo_req =
      fun_ext λ out. fun_ext λ size. fun_ext λ count. rw all_blocks-unlogged
