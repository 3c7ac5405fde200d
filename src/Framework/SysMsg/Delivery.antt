-- ===== src/Framework/SysMsg/Delivery.antt =====
-- The senders of sys_msg.c that allocate a message: it is delivered, or no trace of it is left.
use zephyr_project.Framework.BufferPool.Heap.{bph_size_pos, buffer_pool_take-Takes}
use zephyr_project.Framework.Effect.{buffer_of}
use zephyr_project.Framework.SysCore.Sending.{msg_send-SendsAs, queue_at}
use zephyr_project.Framework.SysMsg.{
  deallocate_on_error, sys_msg_header_init, sysmsg_create_and_send, sysmsg_cb_create_and_send,
  sysmsg_create_and_sendto_self,
}
use zephyr_project.Framework.Types.{
  Msg, msg_option_none, sizeof_msg, msg_id_reserved, msg_option_callback, sizeof_cb_msg,
}
use zephyr_project.Framework.World.{Env, World, set_rx_id, set_pool, set_msg}
use zephyr_project.Prelude.{arith, inl, inr, ℕ, [], ap, refl, ==_ne, ◌∷◌, ◌≢◌}
use Prim.Native.Char.{code}
use zephyr_project.Framework.BufferPool.{buffer_pool_take}
use zephyr_project.Framework.SysCore.NewBuffer.{
  Creates, new_buffer-Creates, take_fails-Unmoved, take_succeeds-Filled,
}

abbrev pub plain_msg : ℕ → ℕ → ℕ → Msg
plain_msg code rx tx = record {
  header = record { msg_code = code; rx_id = rx; tx_id = tx; options = msg_option_none };
  payload = [];
}

-- A callback message carries the callback's address and its data word.
abbrev pub cb_msg : ℕ → ℕ → ℕ → ℕ → ℕ → Msg
cb_msg tx rx code cb cb_data = record {
  header = record { msg_code = code; rx_id = rx; tx_id = tx; options = msg_option_callback };
  payload = cb ∷ cb_data ∷ [];
}

module _ {e : Env} where
  -- `sysmsg_create_and_send` puts one new message with the given code, sender and receiver at the
  -- end of the queue of the receiver registered under `rx` when its status is 0; with any other
  -- status every block and every queue is as before.
  pub sysmsg_create_and_send-Creates :
      (tx rx code : ℕ) (w : World e)
      → Creates w (queue_at w rx) (plain_msg code rx tx) (sysmsg_create_and_send tx rx code w)
  unfolding sysmsg_create_and_send sys_msg_header_init deallocate_on_error
  sysmsg_create_and_send-Creates tx rx code w =
      let taken = buffer_pool_take e.platform sizeof_msg w.pool in
      elim (buffer_pool_take-Takes sizeof_msg w.pool) [
        | inl (z, x) ↦ rw z (inr (refl, take_fails-Unmoved w _ x))
        | inr (b, z, x) ↦
            let w₁ = sys_msg_header_init (buffer_of e b) code tx (set_pool taken.1 w) in
            rw (z, bph_size_pos e.platform.config b)
              (new_buffer-Creates w w₁ b (queue_at w rx) rx (plain_msg code rx tx) _
                (take_succeeds-Filled _ b w _ w₁.pool.mem x (λ a. ground arith))
                (ground (arith, ap (λ (f : ℕ → Msg). f (buffer_of e b)) x.written))
                (msg_send-SendsAs rx (buffer_of e b) w₁))
      ]

  -- A message that a task sends to itself is one new message with its id as sender and receiver at
  -- the end of its queue when `sysmsg_create_and_sendto_self` returns 0; with any other status every
  -- block and every queue is as before.
  pub sysmsg_create_and_sendto_self-Creates :
      (id code : ℕ) (w : World e)
      → Creates w (queue_at w id) (plain_msg code id id) (sysmsg_create_and_sendto_self id code w)
  unfolding sysmsg_create_and_sendto_self sys_msg_header_init deallocate_on_error
  sysmsg_create_and_sendto_self-Creates id code w =
      let taken = buffer_pool_take e.platform sizeof_msg w.pool in
      elim (buffer_pool_take-Takes sizeof_msg w.pool) [
        | inl (z, x) ↦ rw z (inr (refl, take_fails-Unmoved w _ x))
        | inr (b, z, x) ↦
            let w₁ =
              set_rx_id (buffer_of e b) id
                (sys_msg_header_init (buffer_of e b) code id (set_pool taken.1 w)) in
            rw (z, bph_size_pos e.platform.config b)
              (new_buffer-Creates w w₁ b (queue_at w id) id (plain_msg code id id) _
                (take_succeeds-Filled _ b w _ w₁.pool.mem x (λ a. ground arith))
                (ground (arith, ap (λ (f : ℕ → Msg). f (buffer_of e b)) x.written))
                (msg_send-SendsAs id (buffer_of e b) w₁))
      ]

  -- With a receiver that is not 0, `sysmsg_cb_create_and_send` puts one new message with the callback
  -- and its data at the end of the receiver's queue when its status is 0; with any other status every
  -- block and every queue is as before.
  pub sysmsg_cb_create_and_send-Creates :
      (tx rx code cb cb_data : ℕ) (w : World e)
      → rx ≢ msg_id_reserved
      → Creates w
          (queue_at w rx)
          (cb_msg tx rx code cb cb_data)
          (sysmsg_cb_create_and_send tx rx code cb cb_data w)
  unfolding sysmsg_cb_create_and_send deallocate_on_error
  sysmsg_cb_create_and_send-Creates tx rx code cb cb_data w h =
      let taken = buffer_pool_take e.platform sizeof_cb_msg w.pool in
      elim (buffer_pool_take-Takes sizeof_cb_msg w.pool) [
        | inl (z, x) ↦ rw z (inr (refl, take_fails-Unmoved w _ x))
        | inr (b, z, x) ↦
            let w₁ = set_msg (buffer_of e b) (cb_msg tx rx code cb cb_data) (set_pool taken.1 w) in
            rw (z, bph_size_pos e.platform.config b, ==_ne rx msg_id_reserved h)
              (new_buffer-Creates w w₁ b (queue_at w rx) rx (cb_msg tx rx code cb cb_data) _
                (take_succeeds-Filled _ b w _ w₁.pool.mem x (λ a. ground arith)) (ground arith)
                (msg_send-SendsAs rx (buffer_of e b) w₁))
      ]
