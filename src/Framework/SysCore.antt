-- ===== src/Framework/SysCore.antt =====
-- lib/framework/sys_core.c. A pointer is an address, 0 for NULL. SYSCORE_ASSERT expands to nothing:
-- app/prj.conf sets CONFIG_SYS_ASSRET_ENABLED, and sys_core.h tests CONFIG_SYS_ASSERT_ENABLED.
-- Logging is left out.
pub mod Sending
pub mod Registry
pub mod NewBuffer
use zephyr_project.Prelude.{
  ℕ, zero, suc, ◌-◌, true, not, Option, none, some, ◌==◌, leb, if◌then◌else◌, update,
}
use zephyr_project.Prelude.Int.{ℤ}
use zephyr_project.Platform.{Timeout, no_wait}
use zephyr_project.Framework.Types.{sys_error, smc_invalid, msg_id_app_start, max_msg_recvs}
use zephyr_project.Framework.World.{k_timer_init, Env, World, get_msg, set_rx_id, log_timer}
use Prim.Native.Char.{code}

module _ {e : Env} where
  unfoldable pub msg_register_receiver : ℕ → World e → World e
  msg_register_receiver p_rxer w =
      let id = (w.recv p_rxer).id in
      if p_rxer == 0
      then w
      else if leb max_msg_recvs id
      then w
      else if not (w.msg_task_registry id).in_use
      then record w {
        msg_task_registry =
            update w.msg_task_registry id (record { in_use = true; p_msg_recv = p_rxer });
      }
      else w

  unfoldable pub msg_register_task : ℕ → World e → World e
  msg_register_task p_msg_task w =
      let t = w.task p_msg_task in
      if p_msg_task == 0
      then w
      else log_timer (k_timer_init t.timer) (msg_register_receiver t.rxer w)

  -- `pp_data` is NULL or the address of a variable that holds a message pointer.
  unfoldable pub msg_queue : ℕ → Option ℕ → Timeout → World e → ℤ × World e
  msg_queue p_queue none block_ticks w = (sys_error, w)
  msg_queue p_queue (some p_msg) block_ticks w =
      let t = if w.in_isr then no_wait else block_ticks in
      let r = e.platform.k_msgq_put (w.queue p_queue) p_msg t in
      if p_queue == 0
      then (sys_error, w)
      else if p_msg == 0
      then (sys_error, w)
      else if (get_msg w p_msg).header.msg_code == smc_invalid
      then (sys_error, w)
      else (r.0, record w { queue = update w.queue p_queue r.1 })

  unfoldable pub msg_send : ℕ → ℕ → World e → ℤ × World e
  msg_send rx_id p_msg w =
      let entry = w.msg_task_registry rx_id in
      if p_msg == 0
      then (sys_error, w)
      else if leb max_msg_recvs rx_id
      then (sys_error, w)
      else if not entry.in_use
      then (sys_error, w)
      else if entry.p_msg_recv == 0
      then (sys_error, w)
      else msg_queue (w.recv entry.p_msg_recv).p_queue (some p_msg) no_wait
          (set_rx_id p_msg rx_id w)

  -- The dispatcher of the receiver in slot `i`, if there is one, asked for a handler.
  unfoldable pub handler_at : World e → ℕ → ℕ → Option e.Handler
  handler_at w i code =
      let p_rxer = (w.msg_task_registry i).p_msg_recv in
      if p_rxer == 0
      then none
      else elim (w.recv p_rxer).p_msg_dispatcher [ none ↦ none | some dispatch ↦ dispatch code ]

  -- The search of `msg_unicast` with `left` slots to go, from slot `i`.
  unfoldable pub unicast_from : (left i : ℕ) → ℕ → World e → ℤ × World e
  unicast_from zero i p_msg w = (sys_error, w)
  unicast_from (suc left) i p_msg w =
      let rest = unicast_from left (suc i) p_msg w in
      let rxer = w.recv (w.msg_task_registry i).p_msg_recv in
      elim (handler_at w i (get_msg w p_msg).header.msg_code) [
        | none ↦ rest
        | some h ↦ msg_queue rxer.p_queue (some p_msg) no_wait (set_rx_id p_msg rxer.id w)
      ]

  unfoldable pub msg_unicast : ℕ → World e → ℤ × World e
  msg_unicast p_msg w =
      if p_msg == 0
      then (sys_error, w)
      else unicast_from (max_msg_recvs - msg_id_app_start) msg_id_app_start p_msg w
