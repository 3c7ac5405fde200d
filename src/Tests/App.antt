-- ===== src/Tests/App.antt =====
-- The application's theorems at concrete states.
use zephyr_project.App.Downlink.{
  dl_callback, dl_callback-is_prefix, ignored, is_prefix, off_text, on_text, relay,
}
use zephyr_project.App.Event.{
  event_msg_handler, event_msg_handler-Delivered, event_task_msg_dispatcher,
}
use zephyr_project.App.Posting.{event_message, sensor_event_water_flow}
use zephyr_project.App.Sensor.{
  sensor_measure_msg_handler, sensor_task_msg_dispatcher, water_flower_check,
}
use zephyr_project.App.Sensor.Flow.{sensor_measure-water_flower_check}
use zephyr_project.App.State.{emit, relay_toggled, set_app}
use zephyr_project.App.Tasks.{
  control_task_init, control_task_msg_dispatcher, event_task_init, join_lorawan_msg_handler,
  sensor_task_init,
}
use zephyr_project.App.Tasks.Joined.{join_lorawan_msg_handler-Joined, Joined}
use zephyr_project.App.Tasks.Startup.{task_init-Reached, Reached}
use zephyr_project.App.Uplink.{
  c_string, is_again, send_data_lorawan_msg_handler, sensor_event_msg_handler,
}
use zephyr_project.App.Uplink.Frame.{sensor_event_msg_handler-Shown, Shown}
use zephyr_project.App.Uplink.Retry.{emit_times, send_data_lorawan_msg_handler_ends}
use zephyr_project.Config.Decimal.{snprintf_u}
use zephyr_project.Config.Hash.{dev_nonce_key, water_flow_key}
use zephyr_project.Config.Model.{table}
use zephyr_project.Config.SysCfg.{syscfg_set}
use zephyr_project.Framework.Types.{Msg, dispatch_ok, smc_sensor_event, sizeof_event_msg}
use zephyr_project.Framework.World.{World}
use zephyr_project.Prelude.{
  List, [], add32, arith, false, if◌then◌else◌, ltb, refl, some, ℕ, ◌<◌, ◌∷◌, ◌≡◌, ◌≤◌, replicate,
  ◌≢◌,
}
use zephyr_project.Prelude.Int.{is_zero, negsuc, pos, ℤ}
use zephyr_project.Tests.Base.{
  base, env, with_msg, control_address, event_address, sensor_address, unregistered,
}
use Prim.{tt}
use zephyr_project.Framework.SysCore.NewBuffer.{Posts}
use zephyr_project.Framework.BufferPool.{
  bph_size, buffer_pool_take, buffer_pool_try_to_take, buffer_pool_try_to_take_timeout,
}
use zephyr_project.Framework.Effect.{Delivered}
use zephyr_project.Framework.SysMsg.Progress.{Accepts}
use zephyr_project.Platform.Model.{model}

dl_callback-is_prefix_example : dl_callback (b'o' ∷ []) ≡ (
    if is_prefix (b'o' ∷ []) on_text
    then relay 1
    else if is_prefix (b'o' ∷ []) off_text
    then relay 0
    else ignored)
dl_callback-is_prefix_example = dl_callback-is_prefix (b'o' ∷ []) (omega arith) (omega arith, tt)

writes : (m : ℕ) (s : table.Store) → (syscfg_set table dev_nonce_key (snprintf_u 10 m) s).0 ≡ pos 0
unfolding syscfg_set
writes m s = refl

-- The third attempt succeeds.
abbrev third_joins : ℕ → ℕ → ℤ
third_joins i nonce = if ltb i 2 then negsuc 4 else pos 0

first_two_fail : (j m : ℕ) → j < 2 → is_zero (third_joins j m) ≡ false
first_two_fail j m lt = ground arith

join_lorawan_msg_handler-Joined_example :
    (w' : World env) × (join_lorawan_msg_handler third_joins 10 base
      ≡ some (dispatch_ok, 9 ∷ 8 ∷ 7 ∷ [], w'))
    × Joined 2 base w'
join_lorawan_msg_handler-Joined_example =
    join_lorawan_msg_handler-Joined third_joins 10 2 base (omega arith) first_two_fail (λ m. refl)
      writes

-- The radio answers -EAGAIN once, and -EIO after that.
abbrev busy_then_broken : ℕ → List ℕ → ℤ
busy_then_broken i frame = if ltb i 1 then negsuc 10 else negsuc 4

not_again : (k : ℕ) → 1 ≤ k → is_again (busy_then_broken k (c_string base.app.tx_data)) ≡ false
not_again k le = ground arith

send_data_lorawan_msg_handler_ends_example :
    (k : ℕ) × (1 ≤ k)
    × (k ≤ 8)
    × (send_data_lorawan_msg_handler busy_then_broken 8 base
        ≡ some (
          dispatch_ok,
          let w' = emit_times k (c_string base.app.tx_data) (emit relay_toggled base) in
              set_app (record (w'.app) { tx_data = replicate 51 0 }) w',
        ))
send_data_lorawan_msg_handler_ends_example =
    send_data_lorawan_msg_handler_ends busy_then_broken 1 8 base not_again (omega arith)

counted :
    (syscfg_set table water_flow_key
      (snprintf_u 12 (add32 base.app.water_flower_count 1))
      base.app.store).0
    ≡ pos 0
unfolding syscfg_set
counted = refl

sensor_measure-water_flower_check_example :
    Posts base 13
      (event_message 14 3 2 (sensor_event_water_flow ∷ 42 ∷ 0 ∷ 0 ∷ []))
      (sensor_measure_msg_handler 0 (water_flower_check base)).1
sensor_measure-water_flower_check_example =
    sensor_measure-water_flower_check 0 base (omega arith) counted

-- A flow event of 42 that has arrived at the control task.
abbrev flow_event : Msg
flow_event = event_message smc_sensor_event 1 2 (sensor_event_water_flow ∷ 42 ∷ 0 ∷ 0 ∷ [])

sensor_event_msg_handler-Shown_example :
    Shown (with_msg flow_event) (sensor_event_msg_handler 9 (with_msg flow_event)).1 42
sensor_event_msg_handler-Shown_example =
    sensor_event_msg_handler-Shown 9 42 (0 ∷ 0 ∷ []) (with_msg flow_event) refl refl

flow_event-Accepts : Accepts (with_msg flow_event) 1
flow_event-Accepts = record {
  below = omega arith;
  used = refl;
  some_recv = omega arith;
  some_queue = omega arith;
  room = omega arith;
}

flow_event_takes : (buffer_pool_take model sizeof_event_msg (with_msg flow_event).pool).0 ≢ 0
unfolding buffer_pool_take buffer_pool_try_to_take buffer_pool_try_to_take_timeout bph_size
flow_event_takes = omega arith

event_msg_handler-Delivered_example :
    (b : ℕ) × Delivered
      (with_msg flow_event)
      (event_msg_handler 77 9 (with_msg flow_event)).1
      b
      11
      (event_message smc_sensor_event 1 2 (sensor_event_water_flow ∷ 42 ∷ 5 ∷ 77 ∷ []))
    × ((event_msg_handler 77 9 (with_msg flow_event)).1.app.event_task_event_id ≡ 6)
event_msg_handler-Delivered_example =
    event_msg_handler-Delivered 77 9 (with_msg flow_event) flow_event-Accepts flow_event_takes

task_init-Reached_example :
    let w = event_task_init event_address 1000 (
      sensor_task_init sensor_address 1000
        (control_task_init control_address 60_000 unregistered)) in
    Reached w 1 control_address control_task_msg_dispatcher
    × Reached w 2 sensor_address sensor_task_msg_dispatcher
    × Reached w 3 event_address event_task_msg_dispatcher
task_init-Reached_example =
    task_init-Reached control_address sensor_address event_address 60_000 1000 unregistered refl
      refl refl (omega arith) (omega arith) (omega arith) (omega arith) (omega arith) (omega arith)
      (omega arith) (omega arith) (omega arith)
