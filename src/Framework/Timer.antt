-- ===== src/Framework/Timer.antt =====
-- The task timers and the initialisation of lib/framework/sys_core.c.
pub mod Periodic
use zephyr_project.Prelude.{ℕ, ◌==◌, if◌then◌else◌, update}
use zephyr_project.Prelude.Int.{is_zero}
use zephyr_project.Platform.{Timeout}
use zephyr_project.Framework.Types.{smc_periodic, sizeof_msg}
use zephyr_project.Framework.BufferPool.{
  buffer_pool_init, buffer_pool_try_to_take, buffer_pool_free,
}
use zephyr_project.Framework.World.{
  k_timer_start, k_timer_stop, Env, World, get_msg, set_header, log_timer, set_pool,
}
use zephyr_project.Framework.SysCore.{msg_send}

module _ {e : Env} where
  unfoldable pub msg_start_timer : ℕ → World e → World e
  msg_start_timer p_msg_task w =
      let t = w.task p_msg_task in
      if p_msg_task == 0
      then w
      else log_timer (k_timer_start t.timer t.timer_duration_ticks t.timer_period_ticks) w

  unfoldable pub msg_stop_timer : ℕ → World e → World e
  msg_stop_timer p_msg_task w =
      if p_msg_task == 0 then w else log_timer (k_timer_stop (w.task p_msg_task).timer) w

  unfoldable pub msg_change_timer_period : ℕ → Timeout → Timeout → World e → World e
  msg_change_timer_period p_msg_task duration period w =
      let t = w.task p_msg_task in
      let t' = record t { timer_duration_ticks = duration; timer_period_ticks = period } in
      if p_msg_task == 0
      then w
      else log_timer (k_timer_start t'.timer t'.timer_duration_ticks t'.timer_period_ticks)
          (record w { task = update w.task p_msg_task t' })

  unfoldable pub sys_initialize : World e → World e
  sys_initialize w = set_pool (buffer_pool_init e.platform w.pool) w

  unfoldable pub periodic_timer_callback_isr : ℕ → World e → World e
  periodic_timer_callback_isr p_msg_task w =
      let id = (w.recv (w.task p_msg_task).rxer).id in
      let taken = buffer_pool_try_to_take e.platform sizeof_msg w.pool in
      let p_msg = taken.0 in
      let w₁ = set_pool taken.1 w in
      let options = (get_msg w₁ p_msg).header.options in
      let w₂ =
        set_header p_msg
          (record { msg_code = smc_periodic; rx_id = id; tx_id = id; options = options }) w₁ in
      let sent = msg_send id p_msg w₂ in
      if p_msg == 0
      then w₁
      else if is_zero sent.0
      then sent.1
      else set_pool (buffer_pool_free e.platform p_msg (sent.1).pool) sent.1
