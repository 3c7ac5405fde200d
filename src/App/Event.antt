-- ===== src/App/Event.antt =====
-- app/src/event_task.c: what becomes of a sensor event.
use zephyr_project.App.Posting.{
  take_fill_send, event_message, set_app-Posts, take_fill_send-Posts, set_app-Delivered,
  take_fill_send-Delivered, take_fill_send-app,
}
use zephyr_project.App.State.{Handler, app_env, set_app, sys_unknown, event_msg, AppState}
use zephyr_project.Config.SysCfg.{Nvs}
use zephyr_project.Framework.BufferPool.{buffer_pool_take, zeroed}
use zephyr_project.Framework.SysCore.Sending.{queue_at}
use zephyr_project.Framework.Types.{
  DispatchResult, Msg, dispatch_ok, msg_id_control_task, msg_id_sensor_task, sizeof_event_msg,
  smc_event_trigger, smc_invalid, smc_sensor_event,
}
use zephyr_project.Framework.World.{World, get_msg}
use zephyr_project.Platform.{Platform}
use zephyr_project.Prelude.{
  Option, [], add32, get_or, if◌then◌else◌, none, some, ℕ, ◌==◌, ◌∷◌, if_elim, ==_ne, arith, ◌≢◌,
  ap, ◌%◌, ◌+◌, ◌^◌, ◌≡◌,
}
use zephyr_project.Framework.SysCore.NewBuffer.{Posts}
use zephyr_project.Framework.Broadcast.{accepts}
use zephyr_project.Framework.Effect.{Delivered}
use zephyr_project.Framework.SysMsg.Progress.{Accepts}

unfoldable pub fill_control_event : ℕ → ℕ → ℕ → ℕ → Msg → Msg
fill_control_event event_type event_data id timestamp m = record {
  header = record {
    msg_code = smc_sensor_event;
    rx_id = msg_id_control_task;
    tx_id = msg_id_sensor_task;
    options = m.header.options;
  };
  payload = event_type ∷ event_data ∷ id ∷ timestamp ∷ [];
}

module _ {p : Platform} {n : Nvs} where
  -- `event_task_event_id++` happens only when there is a buffer.
  unfoldable pub send_event_msg_lorawan : ℕ → ℕ → ℕ → World (app_env p n) → World (app_env p n)
  send_event_msg_lorawan event_type event_data timestamp w =
      let id = w.app.event_task_event_id in
      let taken = buffer_pool_take p sizeof_event_msg w.pool in
      let counted = set_app (record (w.app) { event_task_event_id = add32 id 1 }) w in
      let w' = if taken.0 == 0 then w else counted in
      take_fill_send sizeof_event_msg (fill_control_event event_type event_data id timestamp) w'

  -- `event.timestamp` is not initialised: what stands there is a parameter.
  unfoldable pub event_msg_handler :
      ℕ → ℕ → World (app_env p n) → DispatchResult × World (app_env p n)
  event_msg_handler timestamp p_msg w =
      let words = (get_msg w p_msg).payload in
      (dispatch_ok, send_event_msg_lorawan (get_or words 0 0) (get_or words 1 0) timestamp w)

  -- The event that arrives is passed on with its type and data, numbered by the static
  -- counter: it is a new message at the end of the control task's queue, or no queue and no block
  -- changed.
  pub event_msg_handler-Posts :
      (timestamp p_msg : ℕ) (w : World (app_env p n))
      → let words = (get_msg w p_msg).payload in
        Posts w
          (queue_at w msg_id_control_task)
          (event_message smc_sensor_event msg_id_control_task msg_id_sensor_task
            (get_or words 0 0 ∷ get_or words 1 0 ∷ w.app.event_task_event_id ∷ timestamp ∷ []))
          (event_msg_handler timestamp p_msg w).1
  unfolding event_msg_handler send_event_msg_lorawan fill_control_event
  event_msg_handler-Posts timestamp p_msg w =
      let words = (get_msg w p_msg).payload in
      let id = w.app.event_task_event_id in
      let fill = fill_control_event (get_or words 0 0) (get_or words 1 0) id timestamp in
      let m = fill (zeroed sizeof_event_msg) in
      let q = queue_at w msg_id_control_task in
      let counted = set_app (record (w.app) { event_task_event_id = add32 id 1 }) w in
      if_elim (λ x. Posts w q m (take_fill_send sizeof_event_msg fill x))
        ((buffer_pool_take p sizeof_event_msg w.pool).0 == 0)
        (λ _. take_fill_send-Posts sizeof_event_msg fill w)
        (λ _. set_app-Posts _ w _ q m (take_fill_send-Posts sizeof_event_msg fill counted))

module _ {p : Platform} {n : Nvs} where
  -- With a buffer in the pool and the control task registered, with room in its queue, the event is
  -- there for certain: a new message with the type and data of the event that arrived, numbered by
  -- the static counter, stands at the end of the control task's queue, and the counter is one higher
  -- (modulo 2^32).
  pub event_msg_handler-Delivered :
      (timestamp p_msg : ℕ) (w : World (app_env p n))
      → Accepts w msg_id_control_task
      → (buffer_pool_take p sizeof_event_msg w.pool).0 ≢ 0
      → let words = (get_msg w p_msg).payload in
        (b : ℕ) × Delivered w
          (event_msg_handler timestamp p_msg w).1
          b
          (queue_at w msg_id_control_task)
          (event_message smc_sensor_event msg_id_control_task msg_id_sensor_task
            (get_or words 0 0 ∷ get_or words 1 0 ∷ w.app.event_task_event_id ∷ timestamp ∷ []))
        × ((event_msg_handler timestamp p_msg w).1.app.event_task_event_id
            ≡ (w.app.event_task_event_id + 1) % 2 ^ 32)
  unfolding event_msg_handler send_event_msg_lorawan fill_control_event
  event_msg_handler-Delivered timestamp p_msg w accepts some_buffer =
      let words = (get_msg w p_msg).payload in
      let id = w.app.event_task_event_id in
      let fill = fill_control_event (get_or words 0 0) (get_or words 1 0) id timestamp in
      let m = fill (zeroed sizeof_event_msg) in
      let q = queue_at w msg_id_control_task in
      let counted = set_app (record (w.app) { event_task_event_id = add32 id 1 }) w in
      let accepts' : Accepts counted msg_id_control_task = record {
        below = accepts.below;
        used = accepts.used;
        some_recv = accepts.some_recv;
        some_queue = accepts.some_queue;
        room = accepts.room;
      } in
      let (b, d) =
        take_fill_send-Delivered sizeof_event_msg fill counted accepts' (omega arith) some_buffer in
      rw (==_ne (buffer_pool_take p sizeof_event_msg w.pool).0 0 some_buffer) (
        b,
        set_app-Delivered _ w _ b q m d,
        ap (λ (a : AppState n). a.event_task_event_id)
            (take_fill_send-app sizeof_event_msg fill counted),
      )

unfoldable pub event_task_msg_dispatcher : ℕ → Option Handler
event_task_msg_dispatcher msg_code =
    if msg_code == smc_invalid
    then some sys_unknown
    else if msg_code == smc_event_trigger
    then some event_msg
    else none
