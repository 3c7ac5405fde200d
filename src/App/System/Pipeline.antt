-- ===== src/App/System/Pipeline.antt =====
-- A flow count on its way from the settings to the frame for the radio.
-- The messages on the way: the one that starts a measurement, the event for the event task, and the
-- event for the control task.
use zephyr_project.App.Event.{event_task_msg_dispatcher, event_msg_handler-Delivered}
use zephyr_project.App.Posting.{event_message, sensor_event_water_flow}
use zephyr_project.App.Sensor.{sensor_task_msg_dispatcher}
use zephyr_project.App.Sensor.Flow.{
  flow_in, sensor_measure-Delivered, HoldsCount, flow_in-HoldsCount,
}
use zephyr_project.App.State.{app_env, event_msg, sensor_event, sensor_measure, AppState}
use zephyr_project.App.System.Boot.{Reached-SameSetup}
use zephyr_project.App.System.Handlers.{Handles, Run}
use zephyr_project.App.System.Hops.{
  Hop, Ran-Hop, receive-Ran, event_msg-tx_data, sensor_measure-tx_data, mail-aside, mail-target,
  CanPost, CanPost-kept, Delivered-as, Reached-Accepts,
}
use zephyr_project.App.Tasks.{TaskAddress, control_task_msg_dispatcher}
use zephyr_project.App.Tasks.Startup.{Reached}
use zephyr_project.Config.SysCfg.{Nvs}
use zephyr_project.Framework.Deliveries.{Deliveries}
use zephyr_project.Framework.Effect.{buffer_of}
use zephyr_project.Framework.Ownership.Mail.{mail}
use zephyr_project.Framework.Ownership.Receiving.{PoolIsOwned}
use zephyr_project.Framework.Receiver.{msg_receiver}
use zephyr_project.Framework.SysMsg.Delivery.{plain_msg}
use zephyr_project.Framework.Types.{
  Msg, msg_id_control_task, msg_id_event_task, msg_id_sensor_task, smc_event_trigger,
  smc_sensor_event, smc_sensor_measure, DispatchResult,
}
use zephyr_project.Framework.World.{World}
use zephyr_project.Platform.{Platform}
use zephyr_project.Prelude.{
  List, [], refl, some, ℕ, ◌∷◌, ◌≡◌, ◌≢◌, ap, get_or, length, ◌++◌, ◌∙◌, arith, ltb, true, ◌<◌, ◌^◌,
}
use zephyr_project.App.Uplink.{c_string, decimal_d, flow_prefix}
use zephyr_project.App.Uplink.Frame.{sensor_event_msg_handler-Shown}
use zephyr_project.Config.Decimal.{decimal}

abbrev pub measure_msg : ℕ → Msg
measure_msg tx = plain_msg smc_sensor_measure msg_id_sensor_task tx

abbrev pub trigger_msg : ℕ → Msg
trigger_msg v =
    event_message smc_event_trigger msg_id_event_task msg_id_sensor_task
      (sensor_event_water_flow ∷ v ∷ 0 ∷ 0 ∷ [])

abbrev passed_event : ℕ → ℕ → ℕ → ℕ → Msg
passed_event t v id timestamp =
    event_message smc_sensor_event msg_id_control_task msg_id_sensor_task
      (t ∷ v ∷ id ∷ timestamp ∷ [])

abbrev pub passed_msg : ℕ → ℕ → ℕ → Msg
passed_msg v id timestamp =
    event_message smc_sensor_event msg_id_control_task msg_id_sensor_task
      (sensor_event_water_flow ∷ v ∷ id ∷ timestamp ∷ [])

measures : sensor_task_msg_dispatcher smc_sensor_measure ≡ some sensor_measure
unfolding sensor_task_msg_dispatcher
measures = refl

triggers : event_task_msg_dispatcher smc_event_trigger ≡ some event_msg
unfolding event_task_msg_dispatcher
triggers = refl

shows : control_task_msg_dispatcher smc_sensor_event ≡ some sensor_event
unfolding control_task_msg_dispatcher
shows = refl

module _ {p : Platform} {n : Nvs} {control : TaskAddress} {run : Run p n}
    {callback : ℕ → ℕ → World (app_env p n) → World (app_env p n)} (handles : Handles control run)
    (calls : (cb arg : ℕ) (w : World (app_env p n)) → Deliveries w (callback cb arg w)) where
  -- The sensor task measures: the event with the count in the settings goes to the event task.
  measure-Hop :
      {w : World (app_env p n)} (sensor event : TaskAddress) (tx : ℕ) (ms : List Msg)
      → Reached w msg_id_sensor_task sensor sensor_task_msg_dispatcher
      → Reached w msg_id_event_task event event_task_msg_dispatcher
      → sensor.rxer ≢ 0
      → sensor.p_queue ≢ 0
      → event.rxer ≢ 0
      → event.p_queue ≢ 0
      → event.p_queue ≢ sensor.p_queue
      → PoolIsOwned w
      → mail w sensor.p_queue ≡ measure_msg tx ∷ ms
      → CanPost w event.p_queue
      → Hop w
          (msg_receiver run callback sensor.rxer w)
          sensor
          ms
          event.p_queue
          (trigger_msg (flow_in n w.app.store))
  measure-Hop {w} sensor event tx ms reached to some_rxer some_queue some_to to_queue apart pool
        first can =
      let (x, pool', setup) =
        receive-Ran handles calls sensor sensor_task_msg_dispatcher sensor_measure (measure_msg tx)
          ms reached some_rxer some_queue pool first measures refl in
      let (remaining, e) =
        handles.measures sensor.rxer (buffer_of (app_env p n) x.block) x.before in
      let to' : Reached x.before msg_id_event_task event event_task_msg_dispatcher =
        Reached-SameSetup {w' = x.before} x.same_setup to in
      let can' : CanPost x.before event.p_queue =
        CanPost-kept w x.before event.p_queue (x.other_queues event.p_queue apart) x.same_pool
          can in
      let (b, d) =
        sensor_measure-Delivered remaining x.before
          (Reached-Accepts to' (omega arith) some_to to_queue can'.0) can'.1 in
      Ran-Hop handles calls sensor ms event.p_queue (trigger_msg (flow_in n w.app.store)) b x pool'
        setup (rw e (sensor_measure-tx_data remaining x.before))
        (rw e (
          Delivered-as to'.queue
            (ap (λ (a : AppState n). trigger_msg (flow_in n a.store)) x.same_app) d))

  -- The event task passes the event on.
  event-Hop :
      {w : World (app_env p n)} (event : TaskAddress) (v : ℕ) (ms : List Msg)
      → Reached w msg_id_event_task event event_task_msg_dispatcher
      → Reached w msg_id_control_task control control_task_msg_dispatcher
      → event.rxer ≢ 0
      → event.p_queue ≢ 0
      → control.rxer ≢ 0
      → control.p_queue ≢ 0
      → control.p_queue ≢ event.p_queue
      → PoolIsOwned w
      → mail w event.p_queue ≡ trigger_msg v ∷ ms
      → CanPost w control.p_queue
      → (id : ℕ) × (timestamp : ℕ) × Hop w
          (msg_receiver run callback event.rxer w)
          event
          ms
          control.p_queue
          (passed_msg v id timestamp)
  event-Hop {w} event v ms reached to some_rxer some_queue some_to to_queue apart pool first can =
      let (x, pool', setup) =
        receive-Ran handles calls event event_task_msg_dispatcher event_msg (trigger_msg v) ms
          reached some_rxer some_queue pool first triggers refl in
      let p_msg = buffer_of (app_env p n) x.block in
      let (timestamp, e) = handles.passes_on event.rxer p_msg x.before in
      let to' : Reached x.before msg_id_control_task control control_task_msg_dispatcher =
        Reached-SameSetup {w' = x.before} x.same_setup to in
      let can' : CanPost x.before control.p_queue =
        CanPost-kept w x.before control.p_queue (x.other_queues control.p_queue apart) x.same_pool
          can in
      let id = x.before.app.event_task_event_id in
      let (b, d, counted) =
        event_msg_handler-Delivered timestamp p_msg x.before
          (Reached-Accepts to' (omega arith) some_to to_queue can'.0) can'.1 in
      (
        id,
        timestamp,
        Ran-Hop handles calls event ms control.p_queue (passed_msg v id timestamp) b x pool' setup
            (rw e (event_msg-tx_data timestamp p_msg x.before))
            (rw e (
              Delivered-as to'.queue
                (ap
                  (λ (m : Msg).
                    passed_event (get_or m.payload 0 0) (get_or m.payload 1 0) id timestamp)
                  x.message)
                d)),
      )

  -- The control task turns the event into the frame.
  frame_after :
      {w : World (app_env p n)} (v id timestamp : ℕ) (ms : List Msg)
      → Reached w msg_id_control_task control control_task_msg_dispatcher
      → control.rxer ≢ 0
      → control.p_queue ≢ 0
      → PoolIsOwned w
      → mail w control.p_queue ≡ passed_msg v id timestamp ∷ ms
      → length w.app.tx_data ≡ 51
      → c_string (msg_receiver run callback control.rxer w).app.tx_data ≡ flow_prefix ++ decimal_d v
  frame_after {w} v id timestamp ms reached some_rxer some_queue pool first size =
      let (x, pool', setup) =
        receive-Ran handles calls control control_task_msg_dispatcher sensor_event
          (passed_msg v id timestamp) ms reached some_rxer some_queue pool first shows refl in
      let b = buffer_of (app_env p n) x.block in
      let shown =
        sensor_event_msg_handler-Shown b v (id ∷ timestamp ∷ []) x.before
          (ap (λ (m : Msg). m.payload) x.message)
          (ap (λ (a : AppState n). length a.tx_data) x.same_app ∙ size) in
      ap (λ (a : AppState n). c_string a.tx_data) x.app
      ∙ ap (λ (r : DispatchResult × World (app_env p n)). c_string r.1.app.tx_data)
          (handles.shows control.rxer b x.before)
      ∙ shown.frame

  module _ {w : World (app_env p n)} (sensor event : TaskAddress) (tx : ℕ) (ms : List Msg)
      (reached_sensor : Reached w msg_id_sensor_task sensor sensor_task_msg_dispatcher)
      (reached_event : Reached w msg_id_event_task event event_task_msg_dispatcher)
      (reached_control : Reached w msg_id_control_task control control_task_msg_dispatcher)
      (some_sensor : sensor.rxer ≢ 0) (some_event : event.rxer ≢ 0)
      (some_control : control.rxer ≢ 0) (sensor_queue : sensor.p_queue ≢ 0)
      (event_queue : event.p_queue ≢ 0) (control_queue : control.p_queue ≢ 0)
      (event_sensor : event.p_queue ≢ sensor.p_queue)
      (control_sensor : control.p_queue ≢ sensor.p_queue)
      (control_event : control.p_queue ≢ event.p_queue) (pool : PoolIsOwned w)
      (first : mail w sensor.p_queue ≡ measure_msg tx ∷ ms) (no_event : mail w event.p_queue ≡ [])
      (no_control : mail w control.p_queue ≡ []) (size : length w.app.tx_data ≡ 51)
      (can_trigger : CanPost w event.p_queue) (v : ℕ) (int : v < 2 ^ 31)
      (holds : HoldsCount n w.app.store v)
      (can_pass : CanPost (msg_receiver run callback sensor.rxer w) control.p_queue) where
    -- When the handlers are those of the three tasks and the callbacks only send: with the three
    -- tasks reached by their ids, distinct queues, each allocated block in exactly one of them, a
    -- message SMC_SENSOR_MEASURE in front of the sensor task's queue, the other two queues empty, a
    -- `tx_data` of 51 bytes, a count below 2^31 in the settings, or none, which counts as 0, a free
    -- buffer and room for the event in the event task's queue, and after the sensor task's turn a
    -- free buffer and room in the control task's queue: when the sensor task, the event task and
    -- the control task each receive one message, in this order, the string in `tx_data` is "flow: "
    -- and that count in decimal.
    pub flow_reaches_frame :
        let w₁ = msg_receiver run callback sensor.rxer w in
        let w₂ = msg_receiver run callback event.rxer w₁ in
        let w₃ = msg_receiver run callback control.rxer w₂ in
        c_string w₃.app.tx_data ≡ flow_prefix ++ decimal v
    unfolding decimal_d
    flow_reaches_frame =
        let w₁ = msg_receiver run callback sensor.rxer w in
        let same : flow_in n w.app.store ≡ v = flow_in-HoldsCount n w.app.store v int holds in
        let hop =
          measure-Hop sensor event tx ms reached_sensor reached_event some_sensor sensor_queue
            some_event event_queue event_sensor pool first can_trigger in
        let arrived =
          mail-target hop event_sensor no_event ∙ ap (λ (x : ℕ). trigger_msg x ∷ []) same in
        let reached_event' = Reached-SameSetup {w' = w₁} hop.setup reached_event in
        let reached_control' = Reached-SameSetup {w' = w₁} hop.setup reached_control in
        let (id, timestamp, hop') =
          event-Hop event v [] reached_event' reached_control' some_event event_queue some_control
            control_queue control_event hop.pool arrived can_pass in
        let none_yet : mail w₁ control.p_queue ≡ [] =
          mail-aside hop control.p_queue control_sensor control_event ∙ no_control in
        let shown =
          frame_after v id timestamp [] (Reached-SameSetup hop'.setup reached_control') some_control
            control_queue hop'.pool (mail-target hop' control_event none_yet)
            (ap length (hop'.frame ∙ hop.frame) ∙ size) in
        let unsigned : ltb v (2 ^ 31) ≡ true = ground arith in shown ∙ rw unsigned refl
