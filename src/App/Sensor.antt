-- ===== src/App/Sensor.antt =====
-- app/src/sensor_task.c, and `water_flower_check` of app/src/bsp.c. What `k_timer_remaining_get`
-- returns is a parameter, and so are the timers' addresses.
pub mod Flow
use Prim.Native.Char.{code}
use zephyr_project.App.Posting.{sensor_event_water_flow, take_fill_send}
use zephyr_project.App.State.{
  Handler, app_env, emit, interval_started, sensor_check, sensor_measure, set_app, sys_unknown,
  value_changed, power_interval_started,
}
use zephyr_project.Config.Decimal.{atoi, snprintf_u}
use zephyr_project.Config.Hash.{water_flow_key}
use zephyr_project.Config.SysCfg.{Nvs, syscfg_get, syscfg_set}
use zephyr_project.Framework.SysMsg.{sysmsg_create_and_send}
use zephyr_project.Framework.Types.{
  DispatchResult, Msg, dispatch_ok, msg_id_event_task, msg_id_sensor_task, msg_option_none,
  sizeof_event_msg, smc_event_trigger, smc_invalid, smc_read_power, smc_sensor_check,
  smc_sensor_measure, smc_value_changed,
}
use zephyr_project.Framework.World.{World, k_timer_init, log_timer}
use zephyr_project.Platform.{Platform}
use zephyr_project.Prelude.{
  List, Option, [], add32, get_or, if◌then◌else◌, none, replicate, some, ℕ, ◌==◌, ◌∷◌,
}
use zephyr_project.Framework.Deliveries.{sent}
use zephyr_project.Framework.Ownership.{count}

-- What the assignments to an event message leave: `id` and `timestamp` stay.
unfoldable pub fill_sensor_event : ℕ → ℕ → Msg → Msg
fill_sensor_event event_type event_data m = record {
  header = record {
    msg_code = smc_event_trigger;
    rx_id = msg_id_event_task;
    tx_id = msg_id_sensor_task;
    options = m.header.options;
  };
  payload = event_type ∷ event_data ∷ get_or m.payload 2 0 ∷ get_or m.payload 3 0 ∷ [];
}

module _ {p : Platform} {n : Nvs} where
  unfoldable pub send_sensor_event : ℕ → ℕ → World (app_env p n) → World (app_env p n)
  send_sensor_event event_type event_data w =
      take_fill_send sizeof_event_msg (fill_sensor_event event_type event_data) w

  unfoldable pub start_sensor_interval : ℕ → World (app_env p n) → World (app_env p n)
  start_sensor_interval remaining w = if remaining == 0 then emit (interval_started 60) w else w

  unfoldable pub start_power_interval : World (app_env p n) → World (app_env p n)
  start_power_interval w = emit (power_interval_started 60) w

  -- What `sensor_task_thread` does before its loop.
  unfoldable pub init_interval_timers :
      (power sensor_read : ℕ) → ℕ → World (app_env p n) → World (app_env p n)
  init_interval_timers power sensor_read remaining w =
      let w₁ = start_power_interval (log_timer (k_timer_init power) w) in
      start_sensor_interval remaining (log_timer (k_timer_init sensor_read) w₁)

  -- The count is the pin's static variable, `printk` is left out.
  unfoldable pub water_flower_check : World (app_env p n) → World (app_env p n)
  water_flower_check w =
      let count = add32 w.app.water_flower_count 1 in
      set_app
        (record (w.app) {
          water_flower_count = count;
          store = (syscfg_set n water_flow_key (snprintf_u 12 count) w.app.store).1;
        })
        w

  unfoldable pub sensor_measure_msg_handler :
      ℕ → World (app_env p n) → DispatchResult × World (app_env p n)
  sensor_measure_msg_handler remaining w =
      let water_flow = (syscfg_get n water_flow_key (replicate 12 0) w.app.store).1 in
      let sent = send_sensor_event sensor_event_water_flow (atoi water_flow) w in
      (dispatch_ok, start_sensor_interval remaining sent)

  unfoldable pub sensor_check_msg_handler :
      World (app_env p n) → DispatchResult × World (app_env p n)
  sensor_check_msg_handler w = (dispatch_ok, w)

  unfoldable pub value_changed_msg_handler :
      World (app_env p n) → DispatchResult × World (app_env p n)
  value_changed_msg_handler w = (dispatch_ok, w)

  unfoldable pub power_timer_callback : World (app_env p n) → World (app_env p n)
  power_timer_callback w =
      (sysmsg_create_and_send msg_id_sensor_task msg_id_sensor_task smc_read_power w).1

  unfoldable pub sensor_read_timer_callback : World (app_env p n) → World (app_env p n)
  sensor_read_timer_callback w =
      (sysmsg_create_and_send msg_id_sensor_task msg_id_sensor_task smc_sensor_measure w).1

-- sensor_task_msg_dispatcher
unfoldable pub sensor_task_msg_dispatcher : ℕ → Option Handler
sensor_task_msg_dispatcher msg_code =
    if msg_code == smc_invalid
    then some sys_unknown
    else if msg_code == smc_sensor_check
    then some sensor_check
    else if msg_code == smc_value_changed
    then some value_changed
    else if msg_code == smc_sensor_measure
    then some sensor_measure
    else none
