-- ===== src/App/System/Sends.antt =====
-- What the handlers of the three tasks that need no radio, and the start of the sensor task, do to
-- the framework's state.
use Prim.Native.Char.{code}
use zephyr_project.App.Event.{event_msg_handler, event_msg_handler-Posts}
use zephyr_project.App.Sensor.{
  send_sensor_event, sensor_check_msg_handler, sensor_measure_msg_handler, start_sensor_interval,
  value_changed_msg_handler, fill_sensor_event, init_interval_timers, start_power_interval,
}
use zephyr_project.App.State.{AppState, Output, app_env, emit, set_app}
use zephyr_project.App.Tasks.{
  TaskAddress, factory_reset_msg_handler, heart_beat_msg_handler, sw_reset_msg_handler,
}
use zephyr_project.App.Uplink.{sensor_event_msg_handler, decimal_d, flow_prefix, snprintf_into}
use zephyr_project.Config.SysCfg.{Nvs, syscfg_get}
use zephyr_project.Framework.Deliveries.{
  Creates-Deliveries, Deliveries, next, quiet, Posts-Deliveries, aside-Deliveries,
}
use zephyr_project.Framework.Effect.{stay}
use zephyr_project.Framework.Receiver.{sys_unknown_msg_handler}
use zephyr_project.Framework.SysCore.Sending.{queue_at}
use zephyr_project.Framework.SysMsg.{sysmsg_create_and_send}
use zephyr_project.Framework.SysMsg.Delivery.{plain_msg, sysmsg_create_and_send-Creates}
use zephyr_project.Framework.Timer.{msg_start_timer}
use zephyr_project.Framework.Types.{DispatchResult, dispatch_do_not_free, sizeof_event_msg}
use zephyr_project.Framework.World.{World, get_msg}
use zephyr_project.Platform.{Platform}
use zephyr_project.Prelude.{
  if_elim, refl, ℕ, ◌==◌, ◌≢◌, get_or, if◌then◌else◌, not, replicate, ◌++◌,
}
use zephyr_project.App.Posting.{sensor_event_water_flow, take_fill_send-Posts}
use zephyr_project.Config.Decimal.{atoi}
use zephyr_project.Config.Hash.{water_flow_key}

module _ {p : Platform} {n : Nvs} where
  -- A handler sends messages, and leaves its own to be freed.
  abbrev pub Sends : World (app_env p n) → DispatchResult × World (app_env p n) → Type 0
  Sends w r = Deliveries w r.1 × (r.0 ≢ dispatch_do_not_free)

  pub set_app-Deliveries : (a : AppState n) (w : World (app_env p n)) → Deliveries w (set_app a w)
  set_app-Deliveries a w = aside-Deliveries _ _ refl refl refl refl

  pub emit-Deliveries : (o : Output) (w : World (app_env p n)) → Deliveries w (emit o w)
  emit-Deliveries o w = set_app-Deliveries _ w

  pub create-Deliveries :
      (tx rx code : ℕ) (w : World (app_env p n))
      → Deliveries w (sysmsg_create_and_send tx rx code w).1
  create-Deliveries tx rx code w =
      Creates-Deliveries (queue_at w rx) (plain_msg code rx tx) _
        (sysmsg_create_and_send-Creates tx rx code w)

  pub msg_start_timer-Deliveries :
      (t : ℕ) (w : World (app_env p n)) → Deliveries w (msg_start_timer t w)
  unfolding msg_start_timer
  msg_start_timer-Deliveries t w =
      if_elim (Deliveries w) (t == 0) (λ _. quiet (stay w))
        (λ _. aside-Deliveries _ _ refl refl refl refl)

  pub unknown-Sends : (r m : ℕ) (w : World (app_env p n)) → Sends w (sys_unknown_msg_handler r m w)
  unfolding sys_unknown_msg_handler
  unknown-Sends r m w = (quiet (stay w), λ e. cc)

  pub sw_reset-Sends : (w : World (app_env p n)) → Sends w (sw_reset_msg_handler w)
  unfolding sw_reset_msg_handler
  sw_reset-Sends w = (quiet (stay w), λ e. cc)

  pub sensor_check-Sends : (w : World (app_env p n)) → Sends w (sensor_check_msg_handler w)
  unfolding sensor_check_msg_handler
  sensor_check-Sends w = (quiet (stay w), λ e. cc)

  pub value_changed-Sends : (w : World (app_env p n)) → Sends w (value_changed_msg_handler w)
  unfolding value_changed_msg_handler
  value_changed-Sends w = (quiet (stay w), λ e. cc)

  pub heart_beat-Sends :
      (control : TaskAddress) (w : World (app_env p n)) → Sends w (heart_beat_msg_handler control w)
  unfolding heart_beat_msg_handler
  heart_beat-Sends control w =
      (next (create-Deliveries _ _ _ w) (msg_start_timer-Deliveries control.msg_task _), λ e. cc)

  pub factory_reset-Sends : (w : World (app_env p n)) → Sends w (factory_reset_msg_handler w)
  unfolding factory_reset_msg_handler
  factory_reset-Sends w = (next (set_app-Deliveries _ w) (create-Deliveries _ _ _ _), λ e. cc)

  pub sensor_event-Sends :
      (m : ℕ) (w : World (app_env p n)) → Sends w (sensor_event_msg_handler m w)
  unfolding sensor_event_msg_handler
  sensor_event-Sends m w =
      let words = (get_msg w m).payload in
      let shown =
        set_app
          (record (w.app) {
            tx_data = snprintf_into w.app.tx_data (flow_prefix ++ decimal_d (get_or words 1 0));
            b_send_msg_lorawan = not w.app.b_send_msg_lorawan;
          })
          w in
      let w' = if get_or words 0 0 == sensor_event_water_flow then shown else w in
      let first : Deliveries w w' =
        if_elim (Deliveries w) (get_or words 0 0 == sensor_event_water_flow)
          (λ _. set_app-Deliveries _ w) (λ _. quiet (stay w)) in
      (
        if_elim (Deliveries w) (w'.app).b_send_msg_lorawan
            (λ _. next first (create-Deliveries _ _ _ w')) (λ _. first),
        λ e. cc,
      )

  pub sensor_measure-Sends :
      (remaining : ℕ) (w : World (app_env p n)) → Sends w (sensor_measure_msg_handler remaining w)
  unfolding sensor_measure_msg_handler send_sensor_event start_sensor_interval
  sensor_measure-Sends remaining w =
      let v = atoi (syscfg_get n water_flow_key (replicate 12 0) w.app.store).1 in
      let first =
        Posts-Deliveries _ _
          (take_fill_send-Posts sizeof_event_msg (fill_sensor_event sensor_event_water_flow v) w) in
      (
        if_elim (Deliveries w) (remaining == 0) (λ _. next first (emit-Deliveries _ _))
            (λ _. first),
        λ e. cc,
      )

  event_msg-Deliveries :
      (timestamp m : ℕ) (w : World (app_env p n)) → Deliveries w (event_msg_handler timestamp m w).1
  event_msg-Deliveries timestamp m w = Posts-Deliveries _ _ (event_msg_handler-Posts timestamp m w)

  pub event_msg-Sends :
      (timestamp m : ℕ) (w : World (app_env p n)) → Sends w (event_msg_handler timestamp m w)
  unfolding event_msg_handler
  event_msg-Sends timestamp m w = (event_msg-Deliveries timestamp m w, λ e. cc)

  start_sensor_interval-Deliveries :
      (remaining : ℕ) (w : World (app_env p n)) → Deliveries w (start_sensor_interval remaining w)
  unfolding start_sensor_interval
  start_sensor_interval-Deliveries remaining w =
      if_elim (Deliveries w) (remaining == 0) (λ _. emit-Deliveries _ w) (λ _. quiet (stay w))

  pub init_interval_timers-Deliveries :
      (power sensor_read remaining : ℕ) (w : World (app_env p n))
      → Deliveries w (init_interval_timers power sensor_read remaining w)
  unfolding init_interval_timers start_power_interval
  init_interval_timers-Deliveries power sensor_read remaining w =
      next (aside-Deliveries _ _ refl refl refl refl) (start_sensor_interval-Deliveries remaining _)
