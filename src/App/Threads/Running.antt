-- ===== src/App/Threads/Running.antt =====
-- The steps of a handler, run alone, beside the handler: the parts that the handlers share.
pub mod Control
pub mod Events
use Prim.Native.Char.{code}
use zephyr_project.App.Join.{join_loop, join_status}
use zephyr_project.App.State.{app_env, set_app, emit, lorawan_sent}
use zephyr_project.App.Tasks.{TaskAddress, factory_reset_msg_handler, heart_beat_msg_handler}
use zephyr_project.App.Threads.{
  factory_reset_calls, heart_beat_calls, join_calls, show_calls, start_timer_calls, fill_send_calls,
  uplink_calls, uplink_next_calls, event_calls, interval_calls, measure_calls,
}
use zephyr_project.App.Uplink.{
  sensor_event_msg_handler, c_string, clear_tx_data, decimal_d, flow_prefix, is_again, send_loop,
  snprintf_into,
}
use zephyr_project.Config.SysCfg.{Nvs, syscfg_get}
use zephyr_project.Framework.SysMsg.{sysmsg_create_and_send, sysmsg_send}
use zephyr_project.Framework.Threads.{Prog, and_then, done, run_alone}
use zephyr_project.Framework.Threads.Calls.{create_and_send_calls, send_calls}
use zephyr_project.Framework.Threads.Running.{
  run-and_then, run-create_and_send_calls, run_alone-task, run-free_on_error, run-send_calls,
}
use zephyr_project.Framework.Timer.{msg_start_timer}
use zephyr_project.Framework.Types.{
  DispatchResult, dispatch_ok, msg_id_control_task, msg_id_sensor_task, smc_sensor_measure,
  smc_sw_reset, MsgTask, Msg, smc_send_data_lorawan, sizeof_event_msg,
}
use zephyr_project.Framework.World.{World, get_msg, set_msg, set_pool}
use zephyr_project.Platform.{Platform}
use zephyr_project.Prelude.{
  List, ap, some, suc, true, zero, ℕ, ◌∙◌, ◌≡◌, Bool-cases, Option, inl, inr, refl, ◌==◌, get_or,
  if◌then◌else◌, ltb, not, ◌++◌, ◌+◌, Bool, add32, false, replicate,
}
use zephyr_project.Prelude.Int.{ℤ, is_zero, is_neg}
use zephyr_project.Config.DevNonce.{inc_dev_nonce}
use zephyr_project.Framework.Deliveries.{next, sent}
use zephyr_project.App.Posting.{sensor_event_water_flow, take_fill_send}
use zephyr_project.App.Event.{event_msg_handler, fill_control_event, send_event_msg_lorawan}
use zephyr_project.App.Sensor.{
  fill_sensor_event, send_sensor_event, sensor_measure_msg_handler, start_sensor_interval,
}
use zephyr_project.Config.Decimal.{atoi}
use zephyr_project.Config.Hash.{water_flow_key}
use zephyr_project.Framework.BufferPool.{buffer_pool_take}

pub if_app {ℓ κ} :
    {A : Type ℓ} {B : Type κ} (g : A → B) (b : Bool) (x y : A)
    → (if b then g x else g y) ≡ g (if b then x else y)
if_app g true x y = refl
if_app g false x y = refl

-- The same test twice.
pub if_if {ℓ} :
    {A : Type ℓ} (b : Bool) (x y u v : A)
    → (if b then x else v) ≡ (if b then (if b then x else y) else (if b then u else v))
if_if true x y u v = refl
if_if false x y u v = refl

module _ {p : Platform} {n : Nvs} where
  pub ok_branch :
      (b : Bool) (x y : Prog (app_env p n) DispatchResult) {r r' : World (app_env p n)}
      (w : World (app_env p n))
      → run_alone x w ≡ (dispatch_ok, r)
      → run_alone y w ≡ (dispatch_ok, r')
      → run_alone (if b then x else y) w ≡ (dispatch_ok, if b then r else r')
  ok_branch true x y w g h = g
  ok_branch false x y w g h = h

  pub ok_same :
      {w w' : World (app_env p n)}
      → w ≡ w'
      → ◌≡◌ {A = DispatchResult × World (app_env p n)} (dispatch_ok, w) (dispatch_ok, w')
  ok_same e i = (dispatch_ok, e i)

  pub then_starts :
      (remaining : ℕ) {w w' : World (app_env p n)}
      → w ≡ w'
      → ◌≡◌ {A = DispatchResult × World (app_env p n)}
          (dispatch_ok, start_sensor_interval remaining w)
          (dispatch_ok, start_sensor_interval remaining w')
  then_starts remaining e i = (dispatch_ok, start_sensor_interval remaining (e i))

  pub run-then_ok :
      (c : Prog (app_env p n) ℤ) (w w' : World (app_env p n))
      → (run_alone c w).1 ≡ w'
      → run_alone {e = app_env p n} {A = DispatchResult} (and_then c (λ _. done dispatch_ok)) w
        ≡ (dispatch_ok, w')
  run-then_ok c w w' same =
      run-and_then c (λ _. done dispatch_ok) w
      ∙ ap (λ (v : World (app_env p n)). (dispatch_ok, v)) same

  pub run-create :
      (tx rx code : ℕ) (w : World (app_env p n))
      → run_alone {e = app_env p n} {A = DispatchResult}
          (and_then (create_and_send_calls w tx rx code) (λ _. done dispatch_ok))
          w
        ≡ (dispatch_ok, (sysmsg_create_and_send tx rx code w).1)
  run-create tx rx code' w =
      run-then_ok (create_and_send_calls w tx rx code') w _
        (ap (λ (r : ℤ × World (app_env p n)). r.1) (run-create_and_send_calls tx rx code' w))
