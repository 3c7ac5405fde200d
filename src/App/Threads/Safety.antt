-- ===== src/App/Threads/Safety.antt =====
-- The safety of the handlers' steps, which begin and end with the message's buffer in hand.
use zephyr_project.App.Event.{fill_control_event}
use zephyr_project.App.Join.{join_status}
use zephyr_project.App.Posting.{sensor_event_water_flow}
use zephyr_project.App.Sensor.{fill_sensor_event}
use zephyr_project.App.State.{
  app_env, Handler, event_msg, factory_reset, heart_beat, join_lorawan, send_data_lorawan,
  sensor_check, sensor_event, sensor_measure, sw_reset, sys_unknown, value_changed,
}
use zephyr_project.App.Tasks.{TaskAddress}
use zephyr_project.App.Threads.{
  event_calls, fill_send_calls, heart_beat_calls, interval_calls, join_calls, measure_calls,
  start_timer_calls, uplink_calls, uplink_next_calls, Answers, handler_calls, show_calls,
}
use zephyr_project.App.Uplink.{c_string, is_again}
use zephyr_project.Config.Decimal.{atoi}
use zephyr_project.Config.Hash.{water_flow_key}
use zephyr_project.Config.SysCfg.{Nvs, syscfg_get}
use zephyr_project.Framework.Effect.{buffer_of}
use zephyr_project.Framework.Threads.{Prog, and_then, done}
use zephyr_project.Framework.Threads.Calls.{create_and_send_calls}
use zephyr_project.Framework.Threads.Safety.{Safe, and_then-Safe, drop-gain, gain}
use zephyr_project.Framework.Threads.Safety.Senders.{
  create_and_send_calls-Safe, not_null, sent_or_freed-Safe,
}
use zephyr_project.Framework.Types.{
  DispatchResult, Msg, dispatch_do_not_free, dispatch_error, dispatch_ok, msg_id_control_task,
  msg_id_sensor_task, smc_send_data_lorawan, smc_sensor_measure, smc_sw_reset,
}
use zephyr_project.Framework.World.{World}
use zephyr_project.Platform.{Platform}
use zephyr_project.Prelude.{
  Bool, List, arith, false, get_or, if_elim, ltb, refl, replicate, suc, true, zero, ℕ, ◌+◌, ◌==◌,
  ◌≡◌, ◌≢◌,
}
use zephyr_project.Prelude.Int.{is_neg, is_zero, ℤ}

-- A handler's end: it has given back what it had, and leaves the freeing to the receiver.
abbrev pub GivesBack : (ℕ → Bool) → DispatchResult → (ℕ → Bool) → Type 0
GivesBack held res h = (h ≡ held) × (res ≢ dispatch_do_not_free)

not_kept_ok : dispatch_ok ≢ dispatch_do_not_free
not_kept_ok e = cc

not_kept_error : dispatch_error ≢ dispatch_do_not_free
not_kept_error e = cc

module _ {p : Platform} {n : Nvs} where
  -- A sender and then a last part: the sender leaves the thread with what it had.
  then-Safe :
      (held : ℕ → Bool) (c : Prog (app_env p n) ℤ) (f : ℤ → Prog (app_env p n) DispatchResult)
      → Safe {A = ℤ} (λ z h. h ≡ held) held c
      → ((z : ℤ) → Safe (GivesBack held) held (f z))
      → Safe (GivesBack held) held (and_then c f)
  then-Safe held c f safe rest =
      and_then-Safe (GivesBack held) (λ z h. h ≡ held) f held c (λ z h same. rw same (rest z)) safe

  create-Safe :
      (tx rx code : ℕ) (held : ℕ → Bool) (s : World (app_env p n))
      → Safe {e = app_env p n} {A = DispatchResult}
          (GivesBack held)
          held
          (and_then (create_and_send_calls s tx rx code) (λ _. done dispatch_ok))
  create-Safe tx rx code' held s =
      then-Safe held (create_and_send_calls s tx rx code') (λ _. done dispatch_ok)
        (create_and_send_calls-Safe tx rx code' held s) (λ _. (refl, not_kept_ok))

  -- A new buffer is filled in and sent, or freed: the thread is left with what it had before.
  fill_send_calls-Safe :
      (b : ℕ) (fill : Msg → Msg) (held : ℕ → Bool) (s : World (app_env p n))
      → held b ≡ false
      → Safe {A = ℤ}
          (λ z h. h ≡ held)
          (gain b held)
          (fill_send_calls s (buffer_of (app_env p n) b) fill)
  fill_send_calls-Safe b fill held s free =
      let mine : gain b held b ≡ true = ground arith in
      (
        (b, refl, mine),
        λ m. (
          (b, refl, mine),
          (
            (b, refl, mine),
            λ m'.
                sent_or_freed-Safe b m'.header.rx_id (gain b held) held s mine
                  (drop-gain b held free),
          ),
        ),
      )

  heart_beat_calls-Safe :
      (control : TaskAddress) (held : ℕ → Bool) (s : World (app_env p n))
      → Safe (GivesBack held) held (heart_beat_calls s control)
  heart_beat_calls-Safe control held s =
      then-Safe held
        (create_and_send_calls s msg_id_control_task msg_id_sensor_task smc_sensor_measure)
        (λ _. start_timer_calls s control.msg_task)
        (create_and_send_calls-Safe msg_id_control_task msg_id_sensor_task smc_sensor_measure held
          s)
        (λ _.
          if_elim (Safe {e = app_env p n} (GivesBack held) held) (control.msg_task == 0)
            (λ _. (refl, not_kept_ok)) (λ _. (refl, not_kept_ok)))

  join_calls-Safe :
      (join : ℕ → ℕ → ℤ) (rounds i : ℕ) (held : ℕ → Bool) (s : World (app_env p n))
      → Safe (GivesBack held) held (join_calls s join rounds i)
  unfolding join_calls
  join_calls-Safe join zero i held s = (refl, not_kept_error)
  join_calls-Safe join (suc rounds) i held s = λ a.
      if_elim (Safe {e = app_env p n} (GivesBack held) held)
        (is_zero (join_status (join i a.dev_nonce)))
        (λ _. create-Safe msg_id_control_task msg_id_sensor_task smc_sensor_measure held s)
        (λ _. join_calls-Safe join rounds (suc i) held s)

  uplink_next_calls-Safe :
      (held : ℕ → Bool) (s : World (app_env p n)) → Safe (GivesBack held) held (uplink_next_calls s)
  uplink_next_calls-Safe held s = λ a.
      if_elim (Safe {e = app_env p n} (GivesBack held) held) a.b_send_msg_lorawan
        (λ _. create-Safe msg_id_control_task msg_id_control_task smc_send_data_lorawan held s)
        (λ _. (refl, not_kept_ok))

  uplink_calls-Safe :
      (send : ℕ → List ℕ → ℤ) (rounds i retries : ℕ) (held : ℕ → Bool) (s : World (app_env p n))
      → Safe (GivesBack held) held (uplink_calls s send rounds i retries)
  unfolding uplink_calls
  uplink_calls-Safe send zero i retries held s = (refl, not_kept_error)
  uplink_calls-Safe send (suc rounds) i retries held s =
      let P = Safe {e = app_env p n} (GivesBack held) held in
      λ a.
        if_elim P (is_again (send i (c_string a.tx_data)))
          (λ _. uplink_calls-Safe send rounds (suc i) retries held s)
          (λ _.
            if_elim P (is_neg (send i (c_string a.tx_data)))
              (λ _.
                if_elim P (ltb 5 retries) (λ _. λ a'. (refl, not_kept_ok))
                  (λ _. uplink_calls-Safe send rounds (suc i) (retries + 1) held s))
              (λ _. λ a'. (refl, not_kept_ok)))

  interval_calls-Safe :
      (remaining : ℕ) (held : ℕ → Bool) (s : World (app_env p n))
      → Safe (GivesBack held) held (interval_calls s remaining)
  interval_calls-Safe remaining held s =
      if_elim (Safe {e = app_env p n} (GivesBack held) held) (remaining == 0)
        (λ _. λ a. (refl, not_kept_ok)) (λ _. (refl, not_kept_ok))

  measure_calls-Safe :
      (remaining : ℕ) (held : ℕ → Bool) (s : World (app_env p n))
      → Safe (GivesBack held) held (measure_calls s remaining)
  measure_calls-Safe remaining held s = λ a.
      let flow = atoi (syscfg_get n water_flow_key (replicate 12 0) a.store).1 in
      let fill = fill_sensor_event sensor_event_water_flow flow in
      (
        omega arith,
        interval_calls-Safe remaining held s,
        λ b free.
            not_null (app_env p n) (Safe {e = app_env p n} (GivesBack held) (gain b held)) b _ _ (
              and_then-Safe (GivesBack held) (λ z h. h ≡ held) (λ _. interval_calls s remaining)
                (gain b held) (fill_send_calls s (buffer_of (app_env p n) b) fill)
                (λ z h same. rw same (interval_calls-Safe remaining held s))
                (fill_send_calls-Safe b fill held s free)),
      )

  event_calls-Safe :
      (timestamp b : ℕ) (held : ℕ → Bool) (s : World (app_env p n))
      → held b ≡ true
      → Safe (GivesBack held) held (event_calls s timestamp (buffer_of (app_env p n) b))
  event_calls-Safe timestamp b held s mine = (
    (b, refl, mine),
    λ m. (
      omega arith,
      (refl, not_kept_ok),
      λ b' free.
          not_null (app_env p n) (Safe {e = app_env p n} (GivesBack held) (gain b' held)) b' _ _
            (λ a.
              let fill =
                fill_control_event (get_or m.payload 0 0) (get_or m.payload 1 0)
                  a.event_task_event_id timestamp in
              and_then-Safe (GivesBack held) (λ z h. h ≡ held) (λ _. done dispatch_ok)
                (gain b' held)
                (fill_send_calls s (buffer_of (app_env p n) b') (
                  fill_control_event (get_or m.payload 0 0) (get_or m.payload 1 0)
                    a.event_task_event_id timestamp))
                (λ z h same. (same, not_kept_ok)) (fill_send_calls-Safe b' fill held s free)),
    ),
  )

  show_calls-Safe :
      (b : ℕ) (held : ℕ → Bool) (s : World (app_env p n))
      → held b ≡ true
      → Safe (GivesBack held) held (show_calls s (buffer_of (app_env p n) b))
  show_calls-Safe b held s mine = (
    (b, refl, mine),
    λ m.
        if_elim (Safe {e = app_env p n} (GivesBack held) held)
          (get_or m.payload 0 0 == sensor_event_water_flow)
          (λ _. λ a a'. uplink_next_calls-Safe held s) (λ _. uplink_next_calls-Safe held s),
  )

  -- Every handler of the three tasks is safe: whatever the radio, the timer and the clock answer, it
  -- touches only the message that it handles and buffers that it took, passes each of these on or
  -- frees it, and gives the message back to be freed.
  pub handler_calls-Safe :
      (control : TaskAddress) (x : Answers) (h : Handler) (r b : ℕ) (held : ℕ → Bool)
      (s : World (app_env p n))
      → held b ≡ true
      → Safe (GivesBack held) held (handler_calls s control x h r (buffer_of (app_env p n) b))
  handler_calls-Safe control x sys_unknown r b held s mine = (refl, not_kept_error)
  handler_calls-Safe control x heart_beat r b held s mine = heart_beat_calls-Safe control held s
  handler_calls-Safe control x sw_reset r b held s mine = (refl, not_kept_ok)
  handler_calls-Safe control x factory_reset r b held s mine =
      λ a. create-Safe msg_id_control_task msg_id_control_task smc_sw_reset held s
  handler_calls-Safe control x join_lorawan r b held s mine =
      join_calls-Safe x.join x.rounds 0 held s
  handler_calls-Safe control x sensor_event r b held s mine = show_calls-Safe b held s mine
  handler_calls-Safe control x send_data_lorawan r b held s mine =
      λ a. uplink_calls-Safe x.send x.rounds 0 0 held s
  handler_calls-Safe control x sensor_check r b held s mine = (refl, not_kept_ok)
  handler_calls-Safe control x value_changed r b held s mine = (refl, not_kept_ok)
  handler_calls-Safe control x sensor_measure r b held s mine =
      measure_calls-Safe x.remaining held s
  handler_calls-Safe control x event_msg r b held s mine =
      event_calls-Safe x.timestamp b held s mine
