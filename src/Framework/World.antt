-- ===== src/Framework/World.antt =====
-- The state that lib/framework/sys_core.c works on: the registry of message receivers, the receiver
-- and task objects by address, the queues by address, the buffer pool, and the calls made on the
-- timers. `Handler` names the message handlers and `App` is the application's own state.
use zephyr_project.Prelude.{ℕ, Bool, List, ◌∷◌, update}
use zephyr_project.Platform.{Timeout, Platform}
use zephyr_project.Framework.Types.{Msg, MsgHeader, MsgRecv, MsgTask}
use zephyr_project.Framework.BufferPool.{Pool, buffer_pool_free}

-- msg_task_entries_t
pub record MsgTaskEntry : Type 0 where
  pub p_msg_recv : ℕ
  pub in_use : Bool

-- A call on a k_timer, by the address of the timer.
pub data TimerCall : Type 0 where
  k_timer_init : ℕ → TimerCall
  k_timer_start : ℕ → Timeout → Timeout → TimerCall
  k_timer_stop : ℕ → TimerCall

pub record Env : Type 1 where
  pub platform : Platform
  pub Handler : Type 0
  pub App : Type 0

-- `timer_calls` is newest first.
pub record World (e : Env) : Type 0 where
  pub pool : Pool e.platform
  pub msg_task_registry : ℕ → MsgTaskEntry
  pub recv : ℕ → MsgRecv e.Handler
  pub task : ℕ → MsgTask
  pub queue : ℕ → e.platform.Msgq
  pub in_isr : Bool
  pub timer_calls : List TimerCall
  pub app : e.App

module _ {e : Env} where
  abbrev pub get_msg : World e → ℕ → Msg
  get_msg w p = w.pool.mem p

  abbrev pub set_msg : ℕ → Msg → World e → World e
  set_msg p m w = record w { pool = record (w.pool) { mem = update w.pool.mem p m } }

  abbrev pub set_header : ℕ → MsgHeader → World e → World e
  set_header p h w = set_msg p (record { header = h; payload = (get_msg w p).payload }) w

  abbrev pub set_rx_id : ℕ → ℕ → World e → World e
  set_rx_id p id w = set_header p (record ((get_msg w p).header) { rx_id = id }) w

  abbrev pub log_timer : TimerCall → World e → World e
  log_timer c w = record w { timer_calls = c ∷ w.timer_calls }

  abbrev pub set_pool : Pool e.platform → World e → World e
  set_pool s w = record w { pool = s }

  abbrev pub free_msg : ℕ → World e → World e
  free_msg p_msg w = set_pool (buffer_pool_free e.platform p_msg w.pool) w
