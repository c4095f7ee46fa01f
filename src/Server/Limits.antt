-- ===== src/Server/Limits.antt =====
-- The receive function of rt_server.cc at the sizes that a read request should not have.
use rpc_transport_tests.Prelude.{ℕ, zero, suc, ◌-◌, ◌<◌, ◌^◌, ◌≡◌, refl, ◌∙◌, List, [], ◌∷◌, arith}
use rpc_transport_tests.Prelude.Int.{ℤ, pos, negsuc, ◌+ℤ◌}
use rpc_transport_tests.Memory.{Bytes, DataBuf, Msg, World, ok, throw, fault, bad_alloc, add_int}
use rpc_transport_tests.Proto.{Codec, of_hdr, r_req_hdr}
use rpc_transport_tests.Machine.{Machine, random_block, stop_clock}
use rpc_transport_tests.Transport.{Buffers}
use rpc_transport_tests.Transport.Views.{Shows, read_buf-ok}
use rpc_transport_tests.Server.{server_rcv_fn, select_job}
use rpc_transport_tests.Server.Replies.{rsp_fill, read_rsp}
use rpc_transport_tests.Server.Replies.Contents.{rand_data-drawn}
use rpc_transport_tests.Server.Answers.{parse_job-eq}

module _ (codec : Codec) (env : Machine) where
  read_negative_count :
      (size : ℤ) (n : ℕ) (req : Msg) (out : Buffers) (w : World)
      → n < 2 ^ 31
      → rsp_fill codec env read_rsp req out size (negsuc n) w
        ≡ ok out (record w { intervals = suc w.intervals })
  unfolding rsp_fill stop_clock add_int ◌+ℤ◌
  read_negative_count size zero req out w h = refl
  read_negative_count size (suc n) req out w h = ground arith

  read_max_count :
      (size : ℕ) (req : Msg) (out : Buffers) (w : World)
      → rsp_fill codec env read_rsp req out (pos size) (pos (2 ^ 31 - 1)) w ≡ fault
  unfolding rsp_fill stop_clock add_int ◌+ℤ◌
  read_max_count size req out w = rw (rand_data-drawn codec env size (2 ^ 31 - 1) [] w)

  read_negative_size :
      (n count : ℕ) (req : Msg) (out : Buffers) (w : World)
      → rsp_fill codec env read_rsp req out (negsuc n) (pos (suc count)) w ≡ throw bad_alloc w
  unfolding rsp_fill random_block
  read_negative_size n count req out w = refl

  -- The first string of a request asks for `count` blocks of `size` bytes.
  pub record AsksFor (w : World) (bs : List DataBuf) (size count : ℤ) : Type 0 where
    pub head : Bytes
    pub rest : List Bytes
    pub shows : Shows w bs (head ∷ rest)
    pub parsed :
        codec.parse head ≡ of_hdr (r_req_hdr (record { buf_count = count; buf_size = size }))

  server_rcv_fn-read :
      (w : World) (bs : List DataBuf) (out : Buffers) (size count : ℤ)
      → AsksFor w bs size count
      → server_rcv_fn codec env (record { bufs = bs }) out w
        ≡ rsp_fill codec env read_rsp (record { bufs = bs }) out size count w
  unfolding server_rcv_fn select_job
  server_rcv_fn-read w [] out size count asks = absurd asks.shows
  server_rcv_fn-read w (b ∷ bs) out size count asks =
      let (l, at, le, ne, s) = asks.shows in
      rw (
        parse_job-eq codec env b asks.head _ _ w (read_buf-ok b asks.head w l at ne) asks.parsed
          refl)

  -- For a read request with a negative count the receive function appends nothing, not even a
  -- header; at the largest int count and a size that is not negative it has undefined behaviour;
  -- and at a negative size and a positive count it throws std::bad_alloc.
  pub server_rcv_fn-read_limits :
      (w w' w'' : World) (bs bs' bs'' : List DataBuf) (out : Buffers) (any : ℤ) (size n count : ℕ)
      → n < 2 ^ 31
      → AsksFor w bs any (negsuc n)
      → AsksFor w' bs' (pos size) (pos (2 ^ 31 - 1))
      → AsksFor w'' bs'' (negsuc n) (pos (suc count))
      → (server_rcv_fn codec env (record { bufs = bs }) out w
          ≡ ok out (record w { intervals = suc w.intervals }))
        × (server_rcv_fn codec env (record { bufs = bs' }) out w' ≡ fault)
        × (server_rcv_fn codec env (record { bufs = bs'' }) out w'' ≡ throw bad_alloc w'')
  server_rcv_fn-read_limits w w' w'' bs bs' bs'' out any size n count h few most huge = (
    server_rcv_fn-read w bs out any (negsuc n) few
        ∙ read_negative_count any n (record { bufs = bs }) out w h,
    server_rcv_fn-read w' bs' out (pos size) (pos (2 ^ 31 - 1)) most
        ∙ read_max_count size (record { bufs = bs' }) out w',
    server_rcv_fn-read w'' bs'' out (negsuc n) (pos (suc count)) huge
        ∙ read_negative_size n count (record { bufs = bs'' }) out w'',
  )
