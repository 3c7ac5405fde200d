-- ===== src/App/Tasks.antt =====
-- The tasks of app/src: their initialisation and dispatchers, and the control task's short handlers.
-- The addresses of the static objects are parameters. Creating the threads and logging are left out.
pub mod Startup
pub mod Joined
use zephyr_project.App.Event.{event_task_msg_dispatcher}
use zephyr_project.App.Join.{join_loop}
use zephyr_project.App.Sensor.{sensor_task_msg_dispatcher}
use zephyr_project.App.State.{
  Handler, app_env, factory_reset, heart_beat, join_lorawan, send_data_lorawan, sensor_event,
  set_app, sw_reset, sys_unknown,
}
use zephyr_project.Config.DevNonce.{get_dev_nonce}
use zephyr_project.Config.SysCfg.{Nvs}
use zephyr_project.Framework.SysCore.{msg_register_task}
use zephyr_project.Framework.SysMsg.{sysmsg_create_and_send}
use zephyr_project.Framework.Timer.{msg_start_timer}
use zephyr_project.Framework.Types.{
  DispatchResult, MsgRecv, MsgTask, dispatch_ok, msg_id_control_task, msg_id_event_task,
  msg_id_sensor_task, smc_factory_reset, smc_invalid, smc_join_lorawan, smc_periodic,
  smc_send_data_lorawan, smc_sensor_event, smc_sensor_measure, smc_sw_reset,
}
use zephyr_project.Framework.World.{World}
use zephyr_project.Platform.{Platform, forever, no_wait, ticks}
use zephyr_project.Prelude.{
  Bool, List, Option, [], false, if◌then◌else◌, none, some, true, update, ℕ, ◌==◌,
}
use zephyr_project.Prelude.Int.{is_neg, ℤ}

-- The addresses of a task's static objects. The durations of the timers are in ticks here, and
-- K_MSEC(0) is K_NO_WAIT.
pub record TaskAddress : Type 0 where
  pub msg_task : ℕ
  pub rxer : ℕ
  pub timer : ℕ
  pub p_queue : ℕ

unfoldable pub control_task_msg_dispatcher : ℕ → Option Handler
control_task_msg_dispatcher msg_code =
    if msg_code == smc_invalid
    then some sys_unknown
    else if msg_code == smc_periodic
    then some heart_beat
    else if msg_code == smc_sw_reset
    then some sw_reset
    else if msg_code == smc_factory_reset
    then some factory_reset
    else if msg_code == smc_join_lorawan
    then some join_lorawan
    else if msg_code == smc_sensor_event
    then some sensor_event
    else if msg_code == smc_send_data_lorawan
    then some send_data_lorawan
    else none

module _ {p : Platform} {n : Nvs} where
  -- The assignments that the three init functions begin with.
  unfoldable pub fill_task :
      TaskAddress → ℕ → (ℕ → Option Handler) → ℕ → World (app_env p n) → World (app_env p n)
  fill_task a id dispatcher duration w =
      let rxer : MsgRecv Handler = record (w.recv a.rxer) {
        id = id;
        p_queue = a.p_queue;
        rx_block_ticks = forever;
        p_msg_dispatcher = some dispatcher;
      } in
      let task : MsgTask = record {
        rxer = a.rxer;
        timer = a.timer;
        timer_duration_ticks = ticks duration;
        timer_period_ticks = no_wait;
      } in
      record w { recv = update w.recv a.rxer rxer; task = update w.task a.msg_task task }

  unfoldable pub control_task_init : TaskAddress → ℕ → World (app_env p n) → World (app_env p n)
  control_task_init a heartbeat w =
      let w' =
        msg_register_task a.msg_task
          (fill_task a msg_id_control_task control_task_msg_dispatcher heartbeat w) in
      set_app (record (w'.app) { b_factory_reset = false }) w'

  unfoldable pub sensor_task_init : TaskAddress → ℕ → World (app_env p n) → World (app_env p n)
  sensor_task_init a second w =
      msg_register_task a.msg_task
        (fill_task a msg_id_sensor_task sensor_task_msg_dispatcher second w)

  unfoldable pub event_task_init : TaskAddress → ℕ → World (app_env p n) → World (app_env p n)
  event_task_init a second w =
      msg_register_task a.msg_task
        (fill_task a msg_id_event_task event_task_msg_dispatcher second w)

  -- `start` is what `lorawan_start` returns.
  unfoldable pub lorawan_init : ℤ → World (app_env p n) → Bool × World (app_env p n)
  lorawan_init start w =
      let w' = set_app (record (w.app) { dev_nonce = get_dev_nonce n w.app.store }) w in
      let sent =
        sysmsg_create_and_send msg_id_control_task msg_id_control_task smc_join_lorawan w' in
      if is_neg start then (false, w) else (true, sent.1)

  -- `ctrl_task_thread` before its loop.
  unfoldable pub ctrl_task_start :
      (control sensor event : TaskAddress) → ℕ → ℤ → World (app_env p n) → World (app_env p n)
  ctrl_task_start control sensor event second start w =
      let w₁ = event_task_init event second (sensor_task_init sensor second w) in
      let w₂ = msg_start_timer control.msg_task (lorawan_init start w₁).1 in
      set_app (record (w₂.app) { b_task_started = true }) w₂

  unfoldable pub sw_reset_msg_handler : World (app_env p n) → DispatchResult × World (app_env p n)
  sw_reset_msg_handler w = (dispatch_ok, w)

  unfoldable pub heart_beat_msg_handler :
      TaskAddress → World (app_env p n) → DispatchResult × World (app_env p n)
  heart_beat_msg_handler control w =
      let sent =
        sysmsg_create_and_send msg_id_control_task msg_id_sensor_task smc_sensor_measure w in
      (dispatch_ok, msg_start_timer control.msg_task sent.1)

  unfoldable pub factory_reset_msg_handler :
      World (app_env p n) → DispatchResult × World (app_env p n)
  factory_reset_msg_handler w =
      let w' = set_app (record (w.app) { b_factory_reset = true }) w in
      (
        dispatch_ok,
        (sysmsg_create_and_send msg_id_control_task msg_id_control_task smc_sw_reset w').1,
      )

  -- `lorawan_set_class` changes nothing here, whatever it returns. The five seconds' sleeps are left
  -- out, and so are the keys of the join request.
  unfoldable pub join_lorawan_msg_handler :
      (ℕ → ℕ → ℤ) → ℕ → World (app_env p n) → Option (DispatchResult × List ℕ × World (app_env p n))
  join_lorawan_msg_handler join fuel w =
      elim (join_loop n join fuel 0 w.app.dev_nonce [] w.app.store) [
        | none ↦ none
        | some (asked, nonce, s) ↦
            let w' = set_app (record (w.app) { dev_nonce = nonce; store = s }) w in
            let sent =
              sysmsg_create_and_send msg_id_control_task msg_id_sensor_task smc_sensor_measure w' in
            some (dispatch_ok, asked, sent.1)
      ]
