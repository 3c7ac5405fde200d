-- ===== src/Framework/Timer/Periodic.antt =====
-- The expiry of a task's timer: a message to the task itself.
use zephyr_project.Framework.Timer.{periodic_timer_callback_isr}
use zephyr_project.Framework.BufferPool.{buffer_pool_try_to_take, zeroed}
use zephyr_project.Framework.BufferPool.Heap.{bph_size_pos, try_to_take-Takes}
use zephyr_project.Framework.Effect.{buffer_of}
use zephyr_project.Framework.SysCore.NewBuffer.{
  Creates-Posts, Posts, new_buffer-Creates, Creates, take_fails-Unmoved, take_succeeds-Filled,
}
use zephyr_project.Framework.SysCore.Sending.{msg_send-SendsAs, queue_at}
use zephyr_project.Framework.SysMsg.Delivery.{plain_msg}
use zephyr_project.Framework.Types.{Msg, sizeof_msg, smc_periodic}
use zephyr_project.Framework.World.{Env, World, get_msg, set_msg, set_pool, free_msg}
use zephyr_project.Prelude.{
  ap, arith, inl, inr, update_self, ℕ, ◌∙◌, ◌≡◌, Bool-cases, if◌then◌else◌,
}
use zephyr_project.Framework.SysCore.{msg_send}
use zephyr_project.Prelude.Int.{is_zero, ℤ}

module _ {e : Env} where
  sent_or_freed-Posts :
      (w : World e) (q : ℕ) (m : Msg) (r : ℤ × World e) (v : World e)
      → Creates w q m (if is_zero r.0 then r else (r.0, v))
      → Posts w q m (if is_zero r.0 then r.1 else v)
  sent_or_freed-Posts w q m r v c = elim (Bool-cases (is_zero r.0)) [
    | inl z ↦ let c' = rw z at c in rw z (Creates-Posts w q m r c')
    | inr z ↦ let c' = rw z at c in rw z (Creates-Posts w q m (r.0, v) c')
  ]

  -- When the timer of a task expires, a new message SMC_PERIODIC from and to the task's own id
  -- stands at the end of the queue that the id leads to, or no queue and no block changed.
  pub periodic_timer_callback_isr-Posts :
      (p_msg_task : ℕ) (w : World e)
      → let id = (w.recv (w.task p_msg_task).rxer).id in
        Posts w
          (queue_at w id)
          (plain_msg smc_periodic id id)
          (periodic_timer_callback_isr p_msg_task w)
  unfolding periodic_timer_callback_isr
  periodic_timer_callback_isr-Posts p_msg_task w =
      let id = (w.recv (w.task p_msg_task).rxer).id in
      let taken = buffer_pool_try_to_take e.platform sizeof_msg w.pool in
      elim (try_to_take-Takes sizeof_msg w.pool) [
        | inl (z, x) ↦ rw z (inr (take_fails-Unmoved w _ x))
        | inr (b, z, x) ↦
            let w' = set_pool taken.1 w in
            let zeros : get_msg w' (buffer_of e b) ≡ zeroed sizeof_msg =
              ap (λ (f : ℕ → Msg). f (buffer_of e b)) x.written
              ∙ update_self w.pool.mem (buffer_of e b) (zeroed sizeof_msg) in
            let m = plain_msg smc_periodic id id in
            let w₁ = set_msg (buffer_of e b) m w' in
            let sent = msg_send id (buffer_of e b) w₁ in
            rw (z, bph_size_pos e.platform.config b, zeros)
              (sent_or_freed-Posts w (queue_at w id) m sent (free_msg (buffer_of e b) sent.1) (
                new_buffer-Creates w w₁ b (queue_at w id) id m sent
                  (take_succeeds-Filled _ b w _ w₁.pool.mem x (λ a. ground arith)) (ground arith)
                  (msg_send-SendsAs id (buffer_of e b) w₁)))
      ]
