-- ===== src/App/Threads/Rounds.antt =====
-- The rounds of the three tasks beside their steps, run alone.
use zephyr_project.App.State.{
  Handler, app_env, event_msg, factory_reset, heart_beat, join_lorawan, send_data_lorawan,
  sensor_check, sensor_event, sensor_measure, sw_reset, sys_unknown, value_changed,
}
use zephyr_project.App.System.Handlers.{Handles, Run}
use zephyr_project.App.Tasks.{TaskAddress}
use zephyr_project.App.Threads.{Answers, handler_calls, uplink_calls, join_calls}
use zephyr_project.Config.SysCfg.{Nvs}
use zephyr_project.Framework.Receiver.{msg_receiver}
use zephyr_project.Framework.Threads.{run_alone, Prog, get_at}
use zephyr_project.Framework.Types.{DispatchResult}
use zephyr_project.Framework.World.{World}
use zephyr_project.Platform.{Platform, no_wait}
use zephyr_project.Prelude.{Option-cases, inl, inr, some, sym, ℕ, ◌∙◌, ◌≡◌, refl, if◌then◌else◌, ap}
use zephyr_project.Prelude.Int.{ℤ, is_zero}
use zephyr_project.Framework.Threads.Agreement.{asked, msg_receiver-agree}
use zephyr_project.Framework.Threads.Calls.{receiver_calls}
use zephyr_project.Framework.Threads.Rounds.{run_callback, run-receiver_calls, run_handler}
use mathlib.Core.Path.{subst}
use zephyr_project.App.Threads.Handling.{handler_calls-IsRun, quiet_answers, same_some}

module _ {p : Platform} {n : Nvs} (control : TaskAddress) where
  -- The handlers look nothing up in the queues.
  handler_calls-queue :
      (x : Answers) (h : Handler) (r m : ℕ) (w : World (app_env p n)) (queue : ℕ → p.Msgq)
      → handler_calls (record w { queue = queue }) control x h r m ≡ handler_calls w control x h r m
  unfolding join_calls uplink_calls
  handler_calls-queue x sys_unknown r m w queue = refl
  handler_calls-queue x heart_beat r m w queue = refl
  handler_calls-queue x sw_reset r m w queue = refl
  handler_calls-queue x factory_reset r m w queue = refl
  handler_calls-queue x join_lorawan r m w queue = refl
  handler_calls-queue x sensor_event r m w queue = refl
  handler_calls-queue x send_data_lorawan r m w queue = refl
  handler_calls-queue x sensor_check r m w queue = refl
  handler_calls-queue x value_changed r m w queue = refl
  handler_calls-queue x sensor_measure r m w queue = refl
  handler_calls-queue x event_msg r m w queue = refl

  -- A round of the receiver at `p_rxer`, with some answers from outside and nothing in between, does
  -- what `msg_receiver` does with the handlers `run`.
  abbrev pub IsRound :
      (ℕ → ℕ → Prog (app_env p n) Unit) → Run p n → ℕ → World (app_env p n) → Type 0
  IsRound callback run p_rxer w =
      let called = λ (cb arg : ℕ) (v : World (app_env p n)). (run_alone (callback cb arg) v).1 in
      (x : Answers) × ((run_alone (receiver_calls w (handler_calls w control x) callback p_rxer)
          w).1
        ≡ msg_receiver run called p_rxer w)

  module _ (callback : ℕ → ℕ → Prog (app_env p n) Unit) (run : Run p n) (k : Handles control run)
      (p_rxer : ℕ) (w : World (app_env p n)) where
    abbrev got : ℤ × ℕ × World (app_env p n)
    got =
        let rxer = w.recv p_rxer in
        get_at rxer.p_queue (if w.in_isr then no_wait else rxer.rx_block_ticks) w

    agreeing :
        (x : Answers)
        → ((h : Handler)
            → asked w p_rxer (if is_zero got.0 then got.1 else 0) got.2 ≡ some h
            → run_alone
                (handler_calls w control x h p_rxer (if is_zero got.0 then got.1 else 0))
                got.2
              ≡ run h p_rxer (if is_zero got.0 then got.1 else 0) got.2)
        → (run_alone (receiver_calls w (handler_calls w control x) callback p_rxer) w).1
          ≡ msg_receiver run (λ cb arg v. (run_alone (callback cb arg) v).1) p_rxer w
    agreeing x agree =
        run-receiver_calls (handler_calls w control x) callback p_rxer w
        ∙ msg_receiver-agree (run_handler (handler_calls w control x) callback) run
            (run_callback (handler_calls w control x) callback) p_rxer w agree

    -- When `run` is the handlers of the three tasks: for some answers of the radio, the timer and the
    -- clock, the steps of a task's round do what `msg_receiver` does when nothing comes in between.
    pub receiver_calls-IsRound : IsRound callback run p_rxer w
    receiver_calls-IsRound =
        let p_msg = if is_zero got.0 then got.1 else 0 in
        elim (Option-cases (asked w p_rxer p_msg got.2)) [
          | inl none_asked ↦ (quiet_answers, agreeing quiet_answers (λ h some_asked. cc))
          | inr (h, is_h) ↦
              let (x, e) = handler_calls-IsRun control run k h p_rxer p_msg got.2 in
              let at_h : run_alone (handler_calls w control x h p_rxer p_msg) got.2
                  ≡ run h p_rxer p_msg got.2 =
                ap (λ (c : Prog (app_env p n) DispatchResult). run_alone c got.2)
                  (sym (handler_calls-queue x h p_rxer p_msg w (got.2).queue))
                ∙ e in
              (
                x,
                agreeing x (λ h' is_h'.
                    let same : h ≡ h' = same_some (sym is_h ∙ is_h') in
                    subst
                      (λ (g : Handler).
                        run_alone (handler_calls w control x g p_rxer p_msg) got.2
                        ≡ run g p_rxer p_msg got.2)
                      same at_h),
              )
        ]
