-- ===== src/Framework/SysMsg/Progress.antt =====
-- When a message is sent for certain.
use Prim.Native.Char.{code}
use zephyr_project.Framework.BufferPool.{buffer_pool_take}
use zephyr_project.Framework.Effect.{Delivered, queued, Queued}
use zephyr_project.Framework.SysCore.{msg_queue, msg_send, msg_register_receiver}
use zephyr_project.Framework.SysCore.Sending.{queue_at, msg_send-SendsAs}
use zephyr_project.Framework.SysMsg.{
  deallocate_on_error, sys_msg_header_init, sysmsg_create_and_send,
}
use zephyr_project.Framework.SysMsg.Delivery.{plain_msg, sysmsg_create_and_send-Creates}
use zephyr_project.Framework.Types.{max_msg_recvs, sizeof_msg, smc_invalid}
use zephyr_project.Framework.World.{Env, World, get_msg, set_pool}
use zephyr_project.Platform.{no_wait}
use zephyr_project.Prelude.{
  ==_ne, ==_refl, arith, false, if◌then◌else◌, leb, length, true, ℕ, ◌<◌, ◌≡◌, ◌≢◌, inl, inr, refl,
  update, update_self,
}
use zephyr_project.Prelude.Int.{is_zero}

module _ {e : Env} where
  -- Slot `rx` has a receiver whose queue is not NULL and has room.
  pub record Accepts (w : World e) (rx : ℕ) : Type 0 where
    pub below : rx < max_msg_recvs
    pub used : (w.msg_task_registry rx).in_use ≡ true
    pub some_recv : (w.msg_task_registry rx).p_msg_recv ≢ 0
    pub some_queue : queue_at w rx ≢ 0
    pub room : length (queued w (queue_at w rx)) < e.platform.max_msgs (w.queue (queue_at w rx))

  pub msg_send_succeeds :
      (rx p : ℕ) (w : World e)
      → Accepts w rx
      → p ≢ 0
      → (get_msg w p).header.msg_code ≢ smc_invalid
      → is_zero (msg_send rx p w).0 ≡ true
  unfolding msg_send msg_queue
  msg_send_succeeds rx p w a some_msg valid =
      let below : leb max_msg_recvs rx ≡ false = let lt = a.below in ground arith in
      let put =
        e.platform.put_room (w.queue (queue_at w rx)) p (if w.in_isr then no_wait else no_wait)
          a.room in
      rw
        (
          ==_ne p 0 some_msg,
          below,
          a.used,
          ==_ne (w.msg_task_registry rx).p_msg_recv 0 a.some_recv,
          ==_ne (queue_at w rx) 0 a.some_queue,
          ==_refl p,
          ==_ne (get_msg w p).header.msg_code smc_invalid valid,
        )
        put

  create_status :
      (tx rx code : ℕ) (w : World e)
      → Accepts w rx
      → code ≢ smc_invalid
      → (buffer_pool_take e.platform sizeof_msg w.pool).0 ≢ 0
      → is_zero (sysmsg_create_and_send tx rx code w).0 ≡ true
  unfolding sysmsg_create_and_send sys_msg_header_init deallocate_on_error
  create_status tx rx code w a valid taken =
      let take_one = buffer_pool_take e.platform sizeof_msg w.pool in
      let w₁ = sys_msg_header_init take_one.0 code tx (set_pool take_one.1 w) in
      let accepts' : Accepts w₁ rx = record {
        below = a.below;
        used = a.used;
        some_recv = a.some_recv;
        some_queue = a.some_queue;
        room = a.room;
      } in
      let valid' : (get_msg w₁ take_one.0).header.msg_code ≢ smc_invalid =
        rw (==_refl take_one.0) valid in
      let sent = msg_send_succeeds rx take_one.0 w₁ accepts' taken valid' in
      rw (==_ne take_one.0 0 taken, sent) sent

  -- With a buffer in the pool, a receiver whose queue has room and a valid code, the message is sent:
  -- the status is 0, and a new message stands at the end of the receiver's queue.
  pub sysmsg_create_and_send_succeeds :
      (tx rx code : ℕ) (w : World e)
      → Accepts w rx
      → code ≢ smc_invalid
      → (buffer_pool_take e.platform sizeof_msg w.pool).0 ≢ 0
      → let r = sysmsg_create_and_send tx rx code w in
        (is_zero r.0 ≡ true) × ((b : ℕ) × Delivered w r.1 b (queue_at w rx) (plain_msg code rx tx))
  sysmsg_create_and_send_succeeds tx rx code w a valid taken =
      let sent = create_status tx rx code w a valid taken in
      elim (sysmsg_create_and_send-Creates tx rx code w) [ inl (z, d) ↦ (z, d) | inr (z, u) ↦ cc ]

  registered :
      (p : ℕ) (w : World e)
      → p ≢ 0
      → (w.recv p).id < max_msg_recvs
      → (w.msg_task_registry (w.recv p).id).in_use ≡ false
      → msg_register_receiver p w ≡ record w {
        msg_task_registry =
            update w.msg_task_registry (w.recv p).id (record { in_use = true; p_msg_recv = p });
      }
  unfolding msg_register_receiver
  registered p w some_p lt free =
      let below : leb max_msg_recvs (w.recv p).id ≡ false = ground arith in
      rw (==_ne p 0 some_p, below, free) refl

  -- A receiver that registers under a free id can be sent to: when it is not NULL, its id is in range
  -- and free, and its queue is not NULL and has room, then after its registration `msg_send` to that
  -- id returns 0 for every message that is not NULL with a valid code, and has put the message at the
  -- end of the receiver's queue, and has changed no other queue and no block.
  pub msg_send-msg_register_receiver :
      (p p_msg : ℕ) (w : World e)
      → p ≢ 0
      → (w.recv p).id < max_msg_recvs
      → (w.msg_task_registry (w.recv p).id).in_use ≡ false
      → (w.recv p).p_queue ≢ 0
      → length (queued w (w.recv p).p_queue) < e.platform.max_msgs (w.queue (w.recv p).p_queue)
      → p_msg ≢ 0
      → (get_msg w p_msg).header.msg_code ≢ smc_invalid
      → let w' = msg_register_receiver p w in
        let r = msg_send (w.recv p).id p_msg w' in
        (is_zero r.0 ≡ true) × Queued w' r.1 (w.recv p).p_queue p_msg
  msg_send-msg_register_receiver p p_msg w some_p lt free some_queue room some_msg valid =
      let id = (w.recv p).id in
      let w₁ : World e = record w {
        msg_task_registry =
            update w.msg_task_registry id (record { in_use = true; p_msg_recv = p });
      } in
      let slot : w₁.msg_task_registry id ≡ record { in_use = true; p_msg_recv = p } =
        update_self w.msg_task_registry id _ in
      let accepts : Accepts w₁ id = record {
        below = lt;
        used = rw slot refl;
        some_recv = rw slot some_p;
        some_queue = rw slot some_queue;
        room = rw slot room;
      } in
      let sent = msg_send_succeeds id p_msg w₁ accepts some_msg valid in
      let reaches : Queued w₁ (msg_send id p_msg w₁).1 (queue_at w₁ id) p_msg =
        elim (msg_send-SendsAs id p_msg w₁) [ inl (z, q, m) ↦ q | inr (z, u) ↦ cc ] in
      let at_p : queue_at w₁ id ≡ (w.recv p).p_queue = rw slot refl in
      rw (registered p w some_p lt free) (sent, rw at_p at reaches)
