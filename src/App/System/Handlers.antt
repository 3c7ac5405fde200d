-- ===== src/App/System/Handlers.antt =====
-- What the dispatchers' handlers do, as one family over the handler names.
use zephyr_project.App.Event.{event_msg_handler}
use zephyr_project.App.Sensor.{
  sensor_check_msg_handler, sensor_measure_msg_handler, value_changed_msg_handler,
}
use zephyr_project.App.State.{
  Handler, app_env, event_msg, factory_reset, heart_beat, join_lorawan, send_data_lorawan,
  sensor_check, sensor_event, sensor_measure, sw_reset, sys_unknown, value_changed,
}
use zephyr_project.App.Tasks.{
  TaskAddress, factory_reset_msg_handler, heart_beat_msg_handler, join_lorawan_msg_handler,
  sw_reset_msg_handler,
}
use zephyr_project.App.Uplink.{send_data_lorawan_msg_handler, sensor_event_msg_handler}
use zephyr_project.Config.SysCfg.{Nvs}
use zephyr_project.Framework.Receiver.{sys_unknown_msg_handler}
use zephyr_project.Framework.Types.{DispatchResult}
use zephyr_project.Framework.World.{World}
use zephyr_project.Platform.{Platform}
use zephyr_project.Prelude.{List, some, ℕ, ◌≡◌}
use zephyr_project.Prelude.Int.{ℤ}
use zephyr_project.App.System.RadioSends.{join_lorawan-Sends, send_data_lorawan-Sends}
use zephyr_project.App.System.Sends.{
  Sends, event_msg-Sends, factory_reset-Sends, heart_beat-Sends, sensor_check-Sends,
  sensor_event-Sends, sensor_measure-Sends, sw_reset-Sends, unknown-Sends, value_changed-Sends,
}

-- A handler is run on the receiver's address, the message's address and the state.
abbrev pub Run : Platform → Nvs → Type 0
Run p n = Handler → ℕ → ℕ → World (app_env p n) → DispatchResult × World (app_env p n)

module _ {p : Platform} {n : Nvs} where
  -- `run` is the handlers of the three tasks. How often the radio is asked, what it answers, the
  -- timer's remaining time and the time stamp may differ from call to call.
  pub record Handles (control : TaskAddress) (run : Run p n) : Type 0 where
    pub unknown :
        (r m : ℕ) (w : World (app_env p n)) → run sys_unknown r m w ≡ sys_unknown_msg_handler r m w
    pub beats :
        (r m : ℕ) (w : World (app_env p n))
        → run heart_beat r m w ≡ heart_beat_msg_handler control w
    pub resets : (r m : ℕ) (w : World (app_env p n)) → run sw_reset r m w ≡ sw_reset_msg_handler w
    pub clears :
        (r m : ℕ) (w : World (app_env p n)) → run factory_reset r m w ≡ factory_reset_msg_handler w
    pub joins :
        (r m : ℕ) (w : World (app_env p n))
        → (join : ℕ → ℕ → ℤ) × (fuel : ℕ) × (asked : List ℕ) × (join_lorawan_msg_handler join fuel w
            ≡ some ((run join_lorawan r m w).0, asked, (run join_lorawan r m w).1))
    pub shows :
        (r m : ℕ) (w : World (app_env p n)) → run sensor_event r m w ≡ sensor_event_msg_handler m w
    pub uplinks :
        (r m : ℕ) (w : World (app_env p n))
        → (send : ℕ → List ℕ → ℤ) × (fuel : ℕ) × (send_data_lorawan_msg_handler send fuel w
            ≡ some (run send_data_lorawan r m w))
    pub checks :
        (r m : ℕ) (w : World (app_env p n)) → run sensor_check r m w ≡ sensor_check_msg_handler w
    pub changes :
        (r m : ℕ) (w : World (app_env p n)) → run value_changed r m w ≡ value_changed_msg_handler w
    pub measures :
        (r m : ℕ) (w : World (app_env p n))
        → (remaining : ℕ) × (run sensor_measure r m w ≡ sensor_measure_msg_handler remaining w)
    pub passes_on :
        (r m : ℕ) (w : World (app_env p n))
        → (timestamp : ℕ) × (run event_msg r m w ≡ event_msg_handler timestamp m w)

  -- Whatever handler runs, it only sends.
  pub run-Sends :
      {control : TaskAddress} {run : Run p n}
      → Handles control run
      → (h : Handler) (r m : ℕ) (w : World (app_env p n)) → Sends w (run h r m w)
  run-Sends k sys_unknown r m w = rw (k.unknown r m w) (unknown-Sends r m w)
  run-Sends {control} k heart_beat r m w = rw (k.beats r m w) (heart_beat-Sends control w)
  run-Sends k sw_reset r m w = rw (k.resets r m w) (sw_reset-Sends w)
  run-Sends k factory_reset r m w = rw (k.clears r m w) (factory_reset-Sends w)
  run-Sends k join_lorawan r m w =
      let (join, fuel, asked, e) = k.joins r m w in rw e at (join_lorawan-Sends join fuel w)
  run-Sends k sensor_event r m w = rw (k.shows r m w) (sensor_event-Sends m w)
  run-Sends k send_data_lorawan r m w =
      let (send, fuel, e) = k.uplinks r m w in rw e at (send_data_lorawan-Sends send fuel w)
  run-Sends k sensor_check r m w = rw (k.checks r m w) (sensor_check-Sends w)
  run-Sends k value_changed r m w = rw (k.changes r m w) (value_changed-Sends w)
  run-Sends k sensor_measure r m w =
      let (remaining, e) = k.measures r m w in rw e (sensor_measure-Sends remaining w)
  run-Sends k event_msg r m w =
      let (timestamp, e) = k.passes_on r m w in rw e (event_msg-Sends timestamp m w)
