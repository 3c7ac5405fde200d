-- ===== src/App/Threads.antt =====
-- The handlers and callbacks of app/src, step by step: each access to a static variable or to the
-- settings is one step, as is each call of the framework that `Framework.Threads` names.
pub mod Running
pub mod Safety
pub mod Handling
pub mod Rounds
pub mod Firmware
pub mod Uninterrupted
use zephyr_project.App.Event.{fill_control_event}
use zephyr_project.App.Join.{join_status}
use zephyr_project.App.Posting.{sensor_event_water_flow}
use zephyr_project.App.Sensor.{fill_sensor_event}
use zephyr_project.App.State.{
  AppState, Handler, Output, app_env, event_msg, factory_reset, heart_beat, interval_started,
  join_lorawan, lorawan_sent, relay_toggled, send_data_lorawan, sensor_check, sensor_event,
  sensor_measure, sw_reset, sys_unknown, value_changed,
}
use zephyr_project.App.Tasks.{TaskAddress}
use zephyr_project.App.Uplink.{c_string, decimal_d, flow_prefix, is_again, snprintf_into}
use zephyr_project.Config.Decimal.{atoi}
use zephyr_project.Config.DevNonce.{inc_dev_nonce}
use zephyr_project.Config.Hash.{water_flow_key}
use zephyr_project.Config.SysCfg.{Nvs, syscfg_get}
use zephyr_project.Framework.Threads.{
  Prog, and_then, by_take, call_timer, done, on_app, read_msg, take_buffer, write_msg,
}
use zephyr_project.Framework.Threads.Calls.{create_and_send_calls, free_on_error_calls, send_calls}
use zephyr_project.Framework.Types.{
  DispatchResult, Msg, dispatch_error, dispatch_ok, msg_id_control_task, msg_id_sensor_task,
  sizeof_event_msg, smc_send_data_lorawan, smc_sensor_measure, smc_sw_reset,
}
use zephyr_project.Framework.World.{World, k_timer_start}
use zephyr_project.Platform.{Platform}
use zephyr_project.Prelude.{
  List, add32, get_or, if◌then◌else◌, ltb, not, replicate, suc, true, zero, ℕ, ◌++◌, ◌+◌, ◌==◌, ◌∷◌,
}
use zephyr_project.Prelude.Int.{is_neg, is_zero, ℤ}

-- What the handlers learn from outside: what the radio answers, and for how many rounds it is asked,
-- the remaining time of the sensor interval timer, and the time stamp.
pub record Answers : Type 0 where
  pub join : ℕ → ℕ → ℤ
  pub send : ℕ → List ℕ → ℤ
  pub rounds : ℕ
  pub remaining : ℕ
  pub timestamp : ℕ

module _ {p : Platform} {n : Nvs} where
  -- An access to the application's state, with what it was before.
  abbrev pub change_app :
      {A : Type 0}
      → (AppState n → AppState n)
      → (AppState n → Prog (app_env p n) A)
      → Prog (app_env p n) A
  change_app = on_app

  abbrev pub read_app : {A : Type 0} → (AppState n → Prog (app_env p n) A) → Prog (app_env p n) A
  read_app k = on_app (λ a. a) k

  abbrev pub emit_calls : {A : Type 0} → Output → Prog (app_env p n) A → Prog (app_env p n) A
  emit_calls o k = on_app (λ a. record a { outputs = o ∷ a.outputs }) (λ _. k)

  -- A handler's last step.
  abbrev pub then_ok : {A : Type 0} → Prog (app_env p n) A → Prog (app_env p n) DispatchResult
  then_ok c = and_then c (λ _. done dispatch_ok)

  -- `s` is the state in which the receivers and tasks are looked up.
  module _ (s : World (app_env p n)) where
    abbrev pub start_timer_calls : ℕ → Prog (app_env p n) DispatchResult
    start_timer_calls p_msg_task =
        let t = s.task p_msg_task in
        if p_msg_task == 0
        then done dispatch_ok
        else call_timer (k_timer_start t.timer t.timer_duration_ticks t.timer_period_ticks)
            (done dispatch_ok)

    abbrev pub heart_beat_calls : TaskAddress → Prog (app_env p n) DispatchResult
    heart_beat_calls control =
        and_then (create_and_send_calls s msg_id_control_task msg_id_sensor_task smc_sensor_measure)
          (λ _. start_timer_calls control.msg_task)

    abbrev pub factory_reset_calls : Prog (app_env p n) DispatchResult
    factory_reset_calls =
        change_app (λ a. record a { b_factory_reset = true })
          (λ _.
            then_ok (create_and_send_calls s msg_id_control_task msg_id_control_task smc_sw_reset))

    -- The attempts to join from the (i+1)-th on.
    unfoldable pub join_calls : (ℕ → ℕ → ℤ) → ℕ → ℕ → Prog (app_env p n) DispatchResult
    join_calls join zero i = done dispatch_error
    join_calls join (suc rounds) i =
        let again = join_calls join rounds (suc i) in
        change_app
          (λ a.
            let r = inc_dev_nonce n a.dev_nonce a.store in
            record a { dev_nonce = r.0; store = r.1 })
          (λ a.
            if is_zero (join_status (join i a.dev_nonce))
            then then_ok
                (create_and_send_calls s msg_id_control_task msg_id_sensor_task smc_sensor_measure)
            else again)

    abbrev pub uplink_next_calls : Prog (app_env p n) DispatchResult
    uplink_next_calls = read_app (λ a.
        if a.b_send_msg_lorawan
        then then_ok
            (create_and_send_calls s msg_id_control_task msg_id_control_task smc_send_data_lorawan)
        else done dispatch_ok)

    abbrev pub show_calls : ℕ → Prog (app_env p n) DispatchResult
    show_calls p_msg = read_msg p_msg (λ m.
        let text = flow_prefix ++ decimal_d (get_or m.payload 1 0) in
        if get_or m.payload 0 0 == sensor_event_water_flow
        then change_app (λ a. record a { tx_data = snprintf_into a.tx_data text })
            (λ _.
              change_app (λ a. record a { b_send_msg_lorawan = not a.b_send_msg_lorawan })
                (λ _. uplink_next_calls))
        else uplink_next_calls)

    -- The rounds of `send_data_lorawan_msg_handler` from the (i+1)-th on.
    unfoldable pub uplink_calls : (ℕ → List ℕ → ℤ) → ℕ → ℕ → ℕ → Prog (app_env p n) DispatchResult
    uplink_calls send zero i retries = done dispatch_error
    uplink_calls send (suc rounds) i retries =
        let again = uplink_calls send rounds (suc i) retries in
        let retry = uplink_calls send rounds (suc i) (retries + 1) in
        let clear =
          change_app (λ a. record a { tx_data = replicate 51 0 }) (λ _. done dispatch_ok) in
        change_app (λ a. record a { outputs = lorawan_sent (c_string a.tx_data) ∷ a.outputs })
          (λ a.
            let ret = send i (c_string a.tx_data) in
            if is_again ret
            then again
            else if is_neg ret
            then (if ltb 5 retries then clear else retry)
            else clear)

    -- A new buffer is filled in and sent.
    abbrev pub fill_send_calls : ℕ → (Msg → Msg) → Prog (app_env p n) ℤ
    fill_send_calls q fill = read_msg q (λ m.
        write_msg q (fill m)
          (read_msg q (λ m'. and_then (send_calls s m'.header.rx_id q) (free_on_error_calls s q))))

    abbrev pub interval_calls : ℕ → Prog (app_env p n) DispatchResult
    interval_calls remaining =
        if remaining == 0
        then emit_calls (interval_started 60) (done dispatch_ok)
        else done dispatch_ok

    abbrev pub measure_calls : ℕ → Prog (app_env p n) DispatchResult
    measure_calls remaining = read_app (λ a.
        let flow = atoi (syscfg_get n water_flow_key (replicate 12 0) a.store).1 in
        take_buffer by_take sizeof_event_msg (λ q.
          if q == 0
          then interval_calls remaining
          else and_then (fill_send_calls q (fill_sensor_event sensor_event_water_flow flow))
              (λ _. interval_calls remaining)))

    abbrev pub event_calls : ℕ → ℕ → Prog (app_env p n) DispatchResult
    event_calls timestamp p_msg = read_msg p_msg (λ m. take_buffer by_take sizeof_event_msg (λ q.
        if q == 0
        then done dispatch_ok
        else change_app (λ a. record a { event_task_event_id = add32 a.event_task_event_id 1 })
            (λ a. then_ok (
              fill_send_calls q (
                fill_control_event (get_or m.payload 0 0) (get_or m.payload 1 0)
                  a.event_task_event_id timestamp)))))

    abbrev pub handler_calls :
        TaskAddress → Answers → Handler → ℕ → ℕ → Prog (app_env p n) DispatchResult
    handler_calls control x sys_unknown r m = done dispatch_error
    handler_calls control x heart_beat r m = heart_beat_calls control
    handler_calls control x sw_reset r m = done dispatch_ok
    handler_calls control x factory_reset r m = factory_reset_calls
    handler_calls control x join_lorawan r m = join_calls x.join x.rounds 0
    handler_calls control x sensor_event r m = show_calls m
    handler_calls control x send_data_lorawan r m =
        emit_calls relay_toggled (uplink_calls x.send x.rounds 0 0)
    handler_calls control x sensor_check r m = done dispatch_ok
    handler_calls control x value_changed r m = done dispatch_ok
    handler_calls control x sensor_measure r m = measure_calls x.remaining
    handler_calls control x event_msg r m = event_calls x.timestamp m
