-- ===== src/App/Threads/Handling.antt =====
-- The handlers of the three tasks beside their steps, run alone.
use zephyr_project.App.Join.{join_loop}
use zephyr_project.App.Sensor.{sensor_check_msg_handler, value_changed_msg_handler}
use zephyr_project.App.State.{
  Handler, app_env, emit, event_msg, factory_reset, heart_beat, join_lorawan, relay_toggled,
  send_data_lorawan, sensor_check, sensor_event, sensor_measure, sw_reset, sys_unknown,
  value_changed,
}
use zephyr_project.App.System.Handlers.{Handles, Run}
use zephyr_project.App.Tasks.{TaskAddress, join_lorawan_msg_handler, sw_reset_msg_handler}
use zephyr_project.App.Threads.{Answers, handler_calls, uplink_calls}
use zephyr_project.App.Uplink.{send_data_lorawan_msg_handler, send_loop}
use zephyr_project.Config.SysCfg.{Nvs}
use zephyr_project.Framework.Receiver.{sys_unknown_msg_handler}
use zephyr_project.Framework.Threads.{run_alone}
use zephyr_project.Framework.Types.{DispatchResult, dispatch_ok}
use zephyr_project.Framework.World.{World}
use zephyr_project.Platform.{Platform}
use zephyr_project.Prelude.{List, Option-cases, [], inl, inr, none, some, sym, ℕ, ◌∙◌, ◌≡◌, Option}
use zephyr_project.Prelude.Int.{pos, ℤ}
use zephyr_project.Framework.Threads.Agreement.{asked}
use zephyr_project.App.Threads.Running.Control.{
  run-factory_reset_calls, run-heart_beat_calls, run-join_calls, run-show_calls, run-uplink_calls,
}
use zephyr_project.App.Threads.Running.Events.{run-event_calls, run-measure_calls}

abbrev pub quiet_answers : Answers
quiet_answers = record {
  join = λ i nonce. pos 0;
  send = λ i frame. pos 0;
  rounds = 0;
  remaining = 0;
  timestamp = 0;
}

same_parts :
    {A B C : Type 0} (a : A) (b b' : B) (c : C) (r : A × C)
    → ◌≡◌ {A = Option (A × B × C)} (some (a, b, c)) (some (r.0, b', r.1))
    → ◌≡◌ {A = A × C} (a, c) r
same_parts a b b' c r e =
    let first : a ≡ r.0 = cc in let last : c ≡ r.1 = cc in λ i. (first i, last i)

pub same_some : {A : Type 0} {a b : A} → some a ≡ some b → a ≡ b
same_some e = cc

module _ {p : Platform} {n : Nvs} where
  -- Some answers from outside make the steps of a handler do what it did.
  abbrev pub IsRun :
      TaskAddress
      → World (app_env p n)
      → Handler
      → ℕ
      → ℕ
      → DispatchResult × World (app_env p n)
      → Type 0
  IsRun control w h r m result =
      (x : Answers) × (run_alone (handler_calls w control x h r m) w ≡ result)

  join-IsRun :
      (control : TaskAddress) (r m : ℕ) (w : World (app_env p n)) (join : ℕ → ℕ → ℤ) (fuel : ℕ)
      (asked : List ℕ) (result : DispatchResult × World (app_env p n))
      → join_lorawan_msg_handler join fuel w ≡ some (result.0, asked, result.1)
      → IsRun control w join_lorawan r m result
  unfolding join_lorawan_msg_handler
  join-IsRun control r m w join fuel asked result e =
      elim (Option-cases (join_loop n join fuel 0 w.app.dev_nonce [] w.app.store)) [
        | inl none_left ↦
            let no : none ≡ some (result.0, asked, result.1) =
              rw (none_left, join_lorawan_msg_handler) at e in
            cc
        | inr ((asked', nonce, st), ends) ↦ (
          record quiet_answers { join = join; rounds = fuel },
          run-join_calls join fuel 0 [] asked' nonce st w ends
              ∙ same_parts dispatch_ok _ _ _ result (rw (ends, join_lorawan_msg_handler) at e),
        )
      ]

  send_data-IsRun :
      (control : TaskAddress) (r m : ℕ) (w : World (app_env p n)) (send : ℕ → List ℕ → ℤ) (fuel : ℕ)
      (result : DispatchResult × World (app_env p n))
      → send_data_lorawan_msg_handler send fuel w ≡ some result
      → IsRun control w send_data_lorawan r m result
  unfolding send_data_lorawan_msg_handler uplink_calls
  send_data-IsRun control r m w send fuel result e =
      let w₁ : World (app_env p n) = emit relay_toggled w in
      elim (Option-cases (send_loop send fuel 0 0 w₁)) [
        | inl none_left ↦
            let no : none ≡ some result = rw (none_left, send_data_lorawan_msg_handler) at e in cc
        | inr (w', ends) ↦ (
          record quiet_answers { send = send; rounds = fuel },
          run-uplink_calls send fuel 0 0 w₁ w' ends
              ∙ same_some (rw (ends, send_data_lorawan_msg_handler) at e),
        )
      ]

  -- When `run` is the handlers of the three tasks, each call of a handler is what its steps do, for
  -- some answers of the radio, the timer and the clock, when nothing comes in between.
  pub handler_calls-IsRun :
      (control : TaskAddress) (run : Run p n)
      → Handles control run
      → (h : Handler) (r m : ℕ) (w : World (app_env p n)) → IsRun control w h r m (run h r m w)
  unfolding sys_unknown_msg_handler sw_reset_msg_handler sensor_check_msg_handler
      value_changed_msg_handler
  handler_calls-IsRun control run k sys_unknown r m w = (quiet_answers, sym (k.unknown r m w))
  handler_calls-IsRun control run k heart_beat r m w =
      (quiet_answers, run-heart_beat_calls control w ∙ sym (k.beats r m w))
  handler_calls-IsRun control run k sw_reset r m w = (quiet_answers, sym (k.resets r m w))
  handler_calls-IsRun control run k factory_reset r m w =
      (quiet_answers, run-factory_reset_calls w ∙ sym (k.clears r m w))
  handler_calls-IsRun control run k join_lorawan r m w =
      let (join, fuel, asked, e) = k.joins r m w in
      join-IsRun control r m w join fuel asked (run join_lorawan r m w) e
  handler_calls-IsRun control run k sensor_event r m w =
      (quiet_answers, run-show_calls m w ∙ sym (k.shows r m w))
  handler_calls-IsRun control run k send_data_lorawan r m w =
      let (send, fuel, e) = k.uplinks r m w in
      send_data-IsRun control r m w send fuel (run send_data_lorawan r m w) e
  handler_calls-IsRun control run k sensor_check r m w = (quiet_answers, sym (k.checks r m w))
  handler_calls-IsRun control run k value_changed r m w = (quiet_answers, sym (k.changes r m w))
  handler_calls-IsRun control run k sensor_measure r m w =
      let (remaining, e) = k.measures r m w in
      (record quiet_answers { remaining = remaining }, run-measure_calls remaining w ∙ sym e)
  handler_calls-IsRun control run k event_msg r m w =
      let (timestamp, e) = k.passes_on r m w in
      (record quiet_answers { timestamp = timestamp }, run-event_calls timestamp m w ∙ sym e)
