-- ===== src/App/Threads/Running/Events.antt =====
-- The steps of the sensor task's and the event task's handlers, run alone, beside the handlers.
use zephyr_project.App.State.{app_env, set_app}
use zephyr_project.App.Threads.{fill_send_calls, event_calls, interval_calls, measure_calls}
use zephyr_project.Config.SysCfg.{Nvs, syscfg_get}
use zephyr_project.Framework.SysMsg.{sysmsg_send}
use zephyr_project.Framework.Threads.{and_then, run_alone}
use zephyr_project.Framework.Threads.Calls.{send_calls}
use zephyr_project.Framework.Threads.Running.{run-and_then, run-free_on_error, run-send_calls}
use zephyr_project.Framework.Types.{dispatch_ok, Msg, sizeof_event_msg}
use zephyr_project.Framework.World.{World, get_msg, set_msg, set_pool}
use zephyr_project.Platform.{Platform}
use zephyr_project.Prelude.{ap, ℕ, ◌∙◌, ◌≡◌, refl, ◌==◌, get_or, add32, replicate}
use zephyr_project.Prelude.Int.{ℤ}
use zephyr_project.App.Posting.{sensor_event_water_flow, take_fill_send}
use zephyr_project.App.Event.{event_msg_handler, fill_control_event, send_event_msg_lorawan}
use zephyr_project.App.Sensor.{
  fill_sensor_event, send_sensor_event, sensor_measure_msg_handler, start_sensor_interval,
}
use zephyr_project.Config.Decimal.{atoi}
use zephyr_project.Config.Hash.{water_flow_key}
use zephyr_project.Framework.BufferPool.{buffer_pool_take}
use zephyr_project.App.Threads.Running.{if_app, if_if, ok_branch, ok_same, run-then_ok, then_starts}

module _ {p : Platform} {n : Nvs} where
  run-fill_send_calls :
      (q : ℕ) (fill : Msg → Msg) (w : World (app_env p n))
      → run_alone (fill_send_calls w q fill) w ≡ sysmsg_send q (set_msg q (fill (get_msg w q)) w)
  unfolding sysmsg_send
  run-fill_send_calls q fill w =
      let w₁ = set_msg q (fill (get_msg w q)) w in
      let rx = (get_msg w₁ q).header.rx_id in
      run-free_on_error q (send_calls w rx q) _ w₁ (run-send_calls rx q w₁)

  run-interval_calls :
      (remaining : ℕ) (s w : World (app_env p n))
      → run_alone (interval_calls s remaining) w ≡ (dispatch_ok, start_sensor_interval remaining w)
  unfolding start_sensor_interval
  run-interval_calls remaining s w = ok_branch (remaining == 0) _ _ w refl refl

  pub run-measure_calls :
      (remaining : ℕ) (w : World (app_env p n))
      → run_alone (measure_calls w remaining) w ≡ sensor_measure_msg_handler remaining w
  unfolding sensor_measure_msg_handler send_sensor_event take_fill_send
  run-measure_calls remaining w =
      let flow = atoi (syscfg_get n water_flow_key (replicate 12 0) w.app.store).1 in
      let fill = fill_sensor_event sensor_event_water_flow flow in
      let taken = buffer_pool_take p sizeof_event_msg w.pool in
      let w' = set_pool taken.1 w in
      let c = fill_send_calls w' taken.0 fill in
      let sent = (sysmsg_send taken.0 (set_msg taken.0 (fill (get_msg w' taken.0)) w')).1 in
      let after : run_alone (and_then c (λ _. interval_calls w remaining)) w'
          ≡ (dispatch_ok, start_sensor_interval remaining sent) =
        run-and_then c (λ _. interval_calls w remaining) w'
        ∙ run-interval_calls remaining w (run_alone c w').1
        ∙ then_starts remaining
            (ap (λ (r : ℤ × World (app_env p n)). r.1) (run-fill_send_calls taken.0 fill w')) in
      ok_branch (taken.0 == 0) _ _ w' (run-interval_calls remaining w w') after
      ∙ ok_same (if_app (start_sensor_interval remaining) (taken.0 == 0) w' sent)

  pub run-event_calls :
      (timestamp p_msg : ℕ) (w : World (app_env p n))
      → run_alone (event_calls w timestamp p_msg) w ≡ event_msg_handler timestamp p_msg w
  unfolding event_msg_handler send_event_msg_lorawan take_fill_send
  run-event_calls timestamp p_msg w =
      let words = (get_msg w p_msg).payload in
      let fill =
        fill_control_event (get_or words 0 0) (get_or words 1 0) w.app.event_task_event_id
          timestamp in
      let taken = buffer_pool_take p sizeof_event_msg w.pool in
      let counted =
        set_app (record (w.app) { event_task_event_id = add32 w.app.event_task_event_id 1 })
          (set_pool taken.1 w) in
      let c = fill_send_calls counted taken.0 fill in
      let send = λ (v : World (app_env p n)). take_fill_send sizeof_event_msg fill v in
      ok_branch (taken.0 == 0) _ _ (set_pool taken.1 w) refl (
        run-then_ok c counted _
          (ap (λ (r : ℤ × World (app_env p n)). r.1) (run-fill_send_calls taken.0 fill counted)))
      ∙ ok_same (if_if (taken.0 == 0) _ _ _ _ ∙ if_app send (taken.0 == 0) w _)
