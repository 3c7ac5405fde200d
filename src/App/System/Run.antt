-- ===== src/App/System/Run.antt =====
-- The program's steps: a task receives a message in its loop, a thread starts, the shell runs a
-- command, or an interrupt runs.
use zephyr_project.App.Sensor.{
  power_timer_callback, sensor_read_timer_callback, water_flower_check, init_interval_timers,
}
use zephyr_project.App.State.{Handler, app_env, set_app}
use zephyr_project.App.System.Handlers.{Run}
use zephyr_project.Config.SysCfg.{Nvs}
use zephyr_project.Framework.Ownership.Mail.{mail}
use zephyr_project.Framework.Receiver.{msg_receiver}
use zephyr_project.Framework.Timer.{periodic_timer_callback_isr}
use zephyr_project.Framework.Types.{Msg}
use zephyr_project.Framework.World.{World}
use zephyr_project.Platform.{Platform}
use zephyr_project.Prelude.{
  List, Option, [], if◌then◌else◌, none, some, true, ℕ, ◌++◌, ◌==◌, ◌∷◌, ◌≡◌, ◌≢◌,
}
use zephyr_project.Config.Shell.{cmd_syscfg_set}

-- The messages that a step adds to those taken from the queue at `q`.
abbrev pub took_from : ℕ → Option (ℕ × Msg) → List Msg
took_from q none = []
took_from q (some (a, m)) = if q == a then m ∷ [] else []

module _ {p : Platform} {n : Nvs} where
  -- What an interrupt runs, sees `k_is_in_isr()`.
  abbrev pub interrupt :
      (World (app_env p n) → World (app_env p n)) → World (app_env p n) → World (app_env p n)
  interrupt f w = record (f (record w { in_isr = true })) { in_isr = w.in_isr }

  module _ (run : Run p n) (callback : ℕ → ℕ → World (app_env p n) → World (app_env p n)) where
    -- A step, and the message taken out of a queue by it: a task with a message in its queue receives
    -- it; the sensor task's thread starts; the shell runs `syscfg set`; the power timer, the sensor
    -- interval timer or a task's timer expires; the flow pin has an edge.
    pub data Step : Option (ℕ × Msg) → World (app_env p n) → World (app_env p n) → Type 0 where
      receives :
          {w : World (app_env p n)} (p_rxer : ℕ) (dispatch : ℕ → Option Handler) (m : Msg)
          (ms : List Msg)
          → p_rxer ≢ 0
          → (w.recv p_rxer).p_queue ≢ 0
          → (w.recv p_rxer).p_msg_dispatcher ≡ some dispatch
          → mail w (w.recv p_rxer).p_queue ≡ m ∷ ms
          → Step (some ((w.recv p_rxer).p_queue, m)) w (msg_receiver run callback p_rxer w)
      sensor_thread :
          {w : World (app_env p n)} (power sensor_read remaining : ℕ)
          → Step none w (init_interval_timers power sensor_read remaining w)
      shell_sets :
          {w : World (app_env p n)} (argv : List (Option (List ℕ)))
          → Step none w
              (set_app (record (w.app) { store = (cmd_syscfg_set n argv w.app.store).2 }) w)
      power_timer : {w : World (app_env p n)} → Step none w (interrupt power_timer_callback w)
      sensor_timer :
          {w : World (app_env p n)} → Step none w (interrupt sensor_read_timer_callback w)
      task_timer :
          {w : World (app_env p n)} (p_msg_task : ℕ)
          → Step none w (interrupt (periodic_timer_callback_isr p_msg_task) w)
      flow_edge : {w : World (app_env p n)} → Step none w (interrupt water_flower_check w)

    -- Some steps, and the messages taken from each queue by them, oldest first.
    pub data Steps : (ℕ → List Msg) → World (app_env p n) → World (app_env p n) → Type 0 where
      no_more : {w : World (app_env p n)} → Steps (λ _. []) w w
      one_more :
          {u v w : World (app_env p n)} (o : Option (ℕ × Msg)) (taken : ℕ → List Msg)
          → Step o u v
          → Steps taken v w
          → Steps (λ q. took_from q o ++ taken q) u w
