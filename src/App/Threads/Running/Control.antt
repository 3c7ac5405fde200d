-- ===== src/App/Threads/Running/Control.antt =====
-- The steps of the control task's handlers, run alone, beside the handlers.
use zephyr_project.App.Join.{join_loop, join_status}
use zephyr_project.App.State.{app_env, set_app, emit, lorawan_sent}
use zephyr_project.App.Tasks.{TaskAddress, factory_reset_msg_handler, heart_beat_msg_handler}
use zephyr_project.App.Threads.{
  factory_reset_calls, heart_beat_calls, join_calls, show_calls, start_timer_calls, uplink_calls,
  uplink_next_calls,
}
use zephyr_project.App.Uplink.{
  sensor_event_msg_handler, c_string, clear_tx_data, decimal_d, flow_prefix, is_again, send_loop,
  snprintf_into,
}
use zephyr_project.Config.SysCfg.{Nvs}
use zephyr_project.Framework.SysMsg.{sysmsg_create_and_send}
use zephyr_project.Framework.Threads.{run_alone}
use zephyr_project.Framework.Threads.Calls.{create_and_send_calls}
use zephyr_project.Framework.Threads.Running.{
  run-and_then, run-create_and_send_calls, run_alone-task,
}
use zephyr_project.Framework.Timer.{msg_start_timer}
use zephyr_project.Framework.Types.{
  DispatchResult, dispatch_ok, msg_id_control_task, msg_id_sensor_task, smc_sensor_measure,
  smc_sw_reset, MsgTask, smc_send_data_lorawan,
}
use zephyr_project.Framework.World.{World, get_msg}
use zephyr_project.Platform.{Platform}
use zephyr_project.Prelude.{
  List, ap, some, suc, true, zero, ℕ, ◌∙◌, ◌≡◌, Bool-cases, Option, inl, inr, refl, ◌==◌, get_or,
  if◌then◌else◌, ltb, not, ◌++◌, ◌+◌,
}
use zephyr_project.Prelude.Int.{ℤ, is_zero, is_neg}
use zephyr_project.Config.DevNonce.{inc_dev_nonce}
use zephyr_project.App.Posting.{sensor_event_water_flow}
use zephyr_project.App.Threads.Running.{ok_branch, run-create}
use zephyr_project.Framework.Threads.Agreement.{asked}

module _ {p : Platform} {n : Nvs} where
  run-start_timer_calls :
      (t : ℕ) (s w : World (app_env p n))
      → w.task t ≡ s.task t
      → run_alone (start_timer_calls s t) w ≡ (dispatch_ok, msg_start_timer t w)
  unfolding msg_start_timer
  run-start_timer_calls t s w same =
      rw (← same) (elim (Bool-cases (t == 0)) [ inl z ↦ rw z refl | inr z ↦ rw z refl ])

  pub run-heart_beat_calls :
      (control : TaskAddress) (w : World (app_env p n))
      → run_alone (heart_beat_calls w control) w ≡ heart_beat_msg_handler control w
  unfolding heart_beat_msg_handler
  run-heart_beat_calls control w =
      let c = create_and_send_calls w msg_id_control_task msg_id_sensor_task smc_sensor_measure in
      let sent =
        ap (λ (r : ℤ × World (app_env p n)). r.1)
          (run-create_and_send_calls msg_id_control_task msg_id_sensor_task smc_sensor_measure w) in
      run-and_then c (λ _. start_timer_calls w control.msg_task) w
      ∙ run-start_timer_calls control.msg_task w (run_alone c w).1
          (ap (λ (f : ℕ → MsgTask). f control.msg_task) (run_alone-task c w))
      ∙ ap (λ (v : World (app_env p n)). (dispatch_ok, msg_start_timer control.msg_task v)) sent

  pub run-factory_reset_calls :
      (w : World (app_env p n)) → run_alone (factory_reset_calls w) w ≡ factory_reset_msg_handler w
  unfolding factory_reset_msg_handler
  run-factory_reset_calls w =
      run-create msg_id_control_task msg_id_control_task smc_sw_reset
        (set_app (record (w.app) { b_factory_reset = true }) w)

  joined :
      {asked asked' : List ℕ} {nonce nonce' : ℕ} {st st' : n.Store} (w : World (app_env p n))
      {r : DispatchResult × World (app_env p n)}
      → ◌≡◌ {A = Option (List ℕ × ℕ × n.Store)}
          (some (asked, nonce, st))
          (some (asked', nonce', st'))
      → r ≡ (
        dispatch_ok,
        (sysmsg_create_and_send msg_id_control_task msg_id_sensor_task smc_sensor_measure
            (set_app (record (w.app) { dev_nonce = nonce; store = st }) w)).1,
      )
      → r ≡ (
        dispatch_ok,
        (sysmsg_create_and_send msg_id_control_task msg_id_sensor_task smc_sensor_measure
            (set_app (record (w.app) { dev_nonce = nonce'; store = st' }) w)).1,
      )
  joined {nonce = nonce} {nonce' = nonce'} {st = st} {st' = st'} w e h =
      let same_nonce : nonce ≡ nonce' = cc in
      let same_store : st ≡ st' = cc in h ∙ rw (same_nonce, same_store) refl

  -- The loop of the join, from any state of the nonce and the settings.
  pub run-join_calls :
      (join : ℕ → ℕ → ℤ) (rounds i : ℕ) (asked asked' : List ℕ) (nonce : ℕ) (st : n.Store)
      (w : World (app_env p n))
      → join_loop n join rounds i w.app.dev_nonce asked w.app.store ≡ some (asked', nonce, st)
      → run_alone (join_calls w join rounds i) w ≡ (
        dispatch_ok,
        (sysmsg_create_and_send msg_id_control_task msg_id_sensor_task smc_sensor_measure
            (set_app (record (w.app) { dev_nonce = nonce; store = st }) w)).1,
      )
  unfolding join_calls join_loop
  run-join_calls join zero i asked asked' nonce st w ends = cc
  run-join_calls join (suc rounds) i asked asked' nonce st w ends =
      let next = inc_dev_nonce n w.app.dev_nonce w.app.store in
      let w' : World (app_env p n) =
        set_app (record (w.app) { dev_nonce = next.0; store = next.1 }) w in
      elim (Bool-cases (is_zero (join_status (join i w.app.dev_nonce)))) [
        | inl z ↦
            rw (z, run_alone)
              (joined w (rw z at ends)
                (run-create msg_id_control_task msg_id_sensor_task smc_sensor_measure w'))
        | inr z ↦
            rw (z, run_alone)
              (run-join_calls join rounds (suc i) _ asked' nonce st w' (rw z at ends))
      ]

  run-uplink_next_calls :
      (w : World (app_env p n))
      → run_alone (uplink_next_calls w) w ≡ (
        dispatch_ok,
        if w.app.b_send_msg_lorawan
            then (sysmsg_create_and_send msg_id_control_task msg_id_control_task
                smc_send_data_lorawan w).1
            else w,
      )
  run-uplink_next_calls w =
      ok_branch w.app.b_send_msg_lorawan _ _ w
        (run-create msg_id_control_task msg_id_control_task smc_send_data_lorawan w) refl

  pub run-show_calls :
      (p_msg : ℕ) (w : World (app_env p n))
      → run_alone (show_calls w p_msg) w ≡ sensor_event_msg_handler p_msg w
  unfolding sensor_event_msg_handler
  run-show_calls p_msg w =
      let words = (get_msg w p_msg).payload in
      let text = flow_prefix ++ decimal_d (get_or words 1 0) in
      let shown =
        set_app
          (record (w.app) {
            tx_data = snprintf_into w.app.tx_data text;
            b_send_msg_lorawan = not w.app.b_send_msg_lorawan;
          })
          w in
      elim (Bool-cases (get_or words 0 0 == sensor_event_water_flow)) [
        | inl flow ↦ rw (flow, run_alone) (run-uplink_next_calls shown)
        | inr other ↦ rw (other, run_alone) (run-uplink_next_calls w)
      ]

  stopped :
      (send : ℕ → List ℕ → ℤ) (v w : World (app_env p n))
      → some v ≡ some w
      → ◌≡◌ {A = DispatchResult × World (app_env p n)}
          (dispatch_ok, clear_tx_data send v)
          (dispatch_ok, clear_tx_data send w)
  stopped send v w e = let same : v ≡ w = cc in rw same refl

  pub run-uplink_calls :
      (send : ℕ → List ℕ → ℤ) (rounds i retries : ℕ) (w w' : World (app_env p n))
      → send_loop send rounds i retries w ≡ some w'
      → run_alone (uplink_calls w send rounds i retries) w ≡ (dispatch_ok, clear_tx_data send w')
  unfolding uplink_calls send_loop clear_tx_data
  run-uplink_calls send zero i retries w w' ends = cc
  run-uplink_calls send (suc rounds) i retries w w' ends =
      let frame = c_string w.app.tx_data in
      let ret = send i frame in
      let v : World (app_env p n) = emit (lorawan_sent frame) w in
      elim (Bool-cases (is_again ret)) [
        | inl again ↦
            rw (again, run_alone)
              (run-uplink_calls send rounds (suc i) retries v w' (rw again at ends))
        | inr other ↦ elim (Bool-cases (is_neg ret)) [
          | inl failed ↦ elim (Bool-cases (ltb 5 retries)) [
            | inl last ↦
                rw (other, failed, last, run_alone)
                  (stopped send v w' (rw (other, failed, last) at ends))
            | inr more ↦
                rw (other, failed, more, run_alone)
                  (run-uplink_calls send rounds (suc i) (retries + 1) v w'
                    (rw (other, failed, more) at ends))
          ]
          | inr good ↦ rw (other, good, run_alone) (stopped send v w' (rw (other, good) at ends))
        ]
      ]
