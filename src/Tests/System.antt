-- ===== src/Tests/System.antt =====
-- The theorems on runs of the whole program at concrete states.
use zephyr_project.Config.Model.{table}
use zephyr_project.App.Event.{event_msg_handler}
use zephyr_project.App.Join.{join_loop}
use zephyr_project.App.Posting.{event_message, sensor_event_water_flow, take_fill_send}
use zephyr_project.App.Sensor.{
  sensor_check_msg_handler, sensor_measure_msg_handler, value_changed_msg_handler,
  water_flower_check, fill_sensor_event, send_sensor_event, sensor_task_msg_dispatcher,
  start_sensor_interval,
}
use zephyr_project.App.State.{
  event_msg, factory_reset, heart_beat, join_lorawan, send_data_lorawan, sensor_check, sensor_event,
  sensor_measure, sw_reset, sys_unknown, value_changed,
}
use zephyr_project.App.System.Fifo.{Steps-Fifo, Steps-PoolIsOwned, run-OnlySends}
use zephyr_project.App.System.Handlers.{Handles, Run}
use zephyr_project.App.System.Run.{
  Steps, flow_edge, interrupt, no_more, one_more, receives, took_from,
}
use zephyr_project.App.Tasks.{
  control_task_msg_dispatcher, factory_reset_msg_handler, heart_beat_msg_handler,
  join_lorawan_msg_handler, sw_reset_msg_handler,
}
use zephyr_project.App.Uplink.{
  send_data_lorawan_msg_handler, send_loop, sensor_event_msg_handler, c_string, flow_prefix,
}
use zephyr_project.Framework.BufferPool.{
  bph_size, buffer_pool_free, buffer_pool_take, buffer_pool_try_to_take,
  buffer_pool_try_to_take_timeout, Pool,
}
use zephyr_project.Framework.Deliveries.{Deliveries, quiet}
use zephyr_project.Framework.Effect.{SameSetup, stay}
use zephyr_project.Framework.Ownership.{in_queue, nobody}
use zephyr_project.Framework.Ownership.Mail.{Appended, mail}
use zephyr_project.Framework.Ownership.Receiving.{PoolIsOwned}
use zephyr_project.Framework.Ownership.Refinement.{msg_receiver-Appended}
use zephyr_project.Framework.Receiver.{
  msg_receiver, sys_unknown_msg_handler, dispatch_msg, free_unless_kept, msg_recv, run_msg_callback,
}
use zephyr_project.Framework.Types.{
  DispatchResult, Msg, dispatch_ok, smc_sensor_event, sizeof_event_msg,
}
use zephyr_project.Framework.World.{World}
use zephyr_project.Platform.Model.{model, Queue}
use zephyr_project.Prelude.{
  List, Option, [], arith, if◌then◌else◌, none, refl, some, ℕ, ◌++◌, ◌==◌, ◌∷◌, ◌≡◌, update, length,
  ◌<◌, ◌≢◌, inl,
}
use zephyr_project.Prelude.Int.{pos, ℤ}
use zephyr_project.Tests.Base.{
  base, env, with_msg, control_address, event_address, sensor_address, no_queue,
}
use zephyr_project.App.System.Pipeline.{flow_reaches_frame, measure_msg}
use zephyr_project.Config.Hash.{get_key_id, seed, water_flow_key}
use zephyr_project.App.System.Hops.{CanPost}
use zephyr_project.Framework.SysCore.{msg_queue, msg_send}
use zephyr_project.Framework.SysMsg.{deallocate_on_error, sysmsg_send}
use zephyr_project.Config.Decimal.{decimal}

abbrev joined_or :
    DispatchResult × World env
    → Option (DispatchResult × List ℕ × World env)
    → DispatchResult × World env
joined_or r none = r
joined_or r (some x) = (x.0, x.2)

abbrev sent_or :
    DispatchResult × World env → Option (DispatchResult × World env) → DispatchResult × World env
sent_or r none = r
sent_or r (some x) = x

abbrev always_joins : ℕ → ℕ → ℤ
always_joins i nonce = pos 0

abbrev always_sends : ℕ → List ℕ → ℤ
always_sends i frame = pos 0

-- The handlers, with a radio that always succeeds.
abbrev pub run_all : Run model table
run_all sys_unknown r m w = sys_unknown_msg_handler r m w
run_all heart_beat r m w = heart_beat_msg_handler control_address w
run_all sw_reset r m w = sw_reset_msg_handler w
run_all factory_reset r m w = factory_reset_msg_handler w
run_all join_lorawan r m w = joined_or (dispatch_ok, w) (join_lorawan_msg_handler always_joins 1 w)
run_all sensor_event r m w = sensor_event_msg_handler m w
run_all send_data_lorawan r m w =
    sent_or (dispatch_ok, w) (send_data_lorawan_msg_handler always_sends 1 w)
run_all sensor_check r m w = sensor_check_msg_handler w
run_all value_changed r m w = value_changed_msg_handler w
run_all sensor_measure r m w = sensor_measure_msg_handler 0 w
run_all event_msg r m w = event_msg_handler 0 m w

pub run_all-Handles : Handles control_address run_all
unfolding join_lorawan_msg_handler join_loop send_data_lorawan_msg_handler send_loop
run_all-Handles = record {
  unknown = λ r m w. refl;
  beats = λ r m w. refl;
  resets = λ r m w. refl;
  clears = λ r m w. refl;
  joins = λ r m w. (always_joins, 1, w.app.dev_nonce ∷ [], refl);
  shows = λ r m w. refl;
  uplinks = λ r m w. (always_sends, 1, refl);
  checks = λ r m w. refl;
  changes = λ r m w. refl;
  measures = λ r m w. (0, refl);
  passes_on = λ r m w. (0, refl);
}

abbrev no_callback : ℕ → ℕ → World env → World env
no_callback callback arg w = w

no_callback-Deliveries : (cb arg : ℕ) (w : World env) → Deliveries w (no_callback cb arg w)
no_callback-Deliveries cb arg w = quiet (stay w)

abbrev pub event : Msg
event = event_message smc_sensor_event 1 2 (sensor_event_water_flow ∷ 42 ∷ 0 ∷ 0 ∷ [])

with_msg-PoolIsOwned : (m : Msg) → PoolIsOwned (with_msg m)
unfolding bph_size
with_msg-PoolIsOwned m = record {
  box = λ q. if q == 11 then 1 ∷ [] else [];
  owner = λ b. if b == 1 then in_queue 11 else nobody;
  owned = record {
    named = λ q. ground arith;
    alive = λ b. ground arith;
    counted = λ b q. ground arith;
  };
  at_rest = λ b. ground arith;
}

-- The control task receives the event, and then the flow pin has an edge.
abbrev received : World env
received = msg_receiver run_all no_callback 100 (with_msg event)

event-Steps :
    Steps run_all no_callback
      (λ q. took_from q (some (11, event)) ++ (took_from q none ++ []))
      (with_msg event)
      (interrupt water_flower_check received)
event-Steps =
    one_more (some (11, event)) (λ q. took_from q none ++ [])
      (receives 100 control_task_msg_dispatcher event [] (omega arith) (omega arith) refl refl)
      (one_more none (λ _. []) flow_edge no_more)

Steps-PoolIsOwned_example :
    let w' = interrupt water_flower_check received in PoolIsOwned w' × SameSetup (with_msg event) w'
Steps-PoolIsOwned_example =
    Steps-PoolIsOwned run_all-Handles no_callback-Deliveries (with_msg-PoolIsOwned event)
      event-Steps

Steps-Fifo_example :
    (added : List Msg) × ((event ∷ []) ++ mail (interrupt water_flower_check received) 11
      ≡ (event ∷ []) ++ added)
unfolding bph_size
Steps-Fifo_example =
    Steps-Fifo run_all-Handles no_callback-Deliveries 11 (with_msg-PoolIsOwned event) event-Steps

msg_receiver-Appended_example :
    Appended (λ a. if a == 11 then [] else mail (with_msg event) a) (mail received)
    × PoolIsOwned received
    × SameSetup (with_msg event) received
unfolding bph_size
msg_receiver-Appended_example =
    msg_receiver-Appended run_all no_callback (run-OnlySends run_all-Handles no_callback-Deliveries)
      100 (with_msg event) control_task_msg_dispatcher event [] (omega arith) (omega arith) refl
      (with_msg-PoolIsOwned event) refl

-- `base` with 42 in the settings and a message that starts a measurement in the sensor task's queue.
abbrev measuring : World env
measuring = record base {
  pool = record (base.pool) { heap = 1 ∷ []; mem = update base.pool.mem 9 (measure_msg 1) };
  queue = update base.queue 12 (record { items = 9 ∷ []; cap = 2 });
  app = record (base.app) {
    store = update base.app.store (get_key_id water_flow_key seed) (some (b'4' ∷ b'2' ∷ []));
  };
}

measuring-PoolIsOwned : PoolIsOwned measuring
unfolding bph_size
measuring-PoolIsOwned = record {
  box = λ q. if q == 12 then 1 ∷ [] else [];
  owner = λ b. if b == 1 then in_queue 12 else nobody;
  owned = record {
    named = λ q. ground arith;
    alive = λ b. ground arith;
    counted = λ b q. ground arith;
  };
  at_rest = λ b. ground arith;
}

abbrev measured : World env
measured = msg_receiver run_all no_callback 200 measuring

measuring-CanPost : CanPost measuring 13
unfolding buffer_pool_take buffer_pool_try_to_take buffer_pool_try_to_take_timeout bph_size
measuring-CanPost = (omega arith, λ e. ground (arith, e))

-- Afterwards the event's block is the only one, and the control task's queue is untouched.
measured_after : (measured.pool.heap ≡ 2 ∷ []) × (measured.queue 11 ≡ no_queue)
unfolding msg_receiver msg_recv sensor_task_msg_dispatcher dispatch_msg run_msg_callback
    free_unless_kept sensor_measure_msg_handler send_sensor_event fill_sensor_event
    start_sensor_interval take_fill_send sysmsg_send deallocate_on_error msg_send msg_queue
    buffer_pool_take buffer_pool_try_to_take buffer_pool_try_to_take_timeout buffer_pool_free
    bph_size
measured_after = (refl, refl)

has_room : (q : Queue) → q ≡ no_queue → length q.items < q.cap
has_room q same = rw same (omega arith)

some_buffer : (s : Pool model) → s.heap ≡ 2 ∷ [] → (buffer_pool_take model sizeof_event_msg s).0 ≢ 0
unfolding buffer_pool_take buffer_pool_try_to_take buffer_pool_try_to_take_timeout bph_size
some_buffer s heap = rw heap (λ e. ground (arith, e))

measured-CanPost : CanPost measured 11
measured-CanPost =
    (has_room (measured.queue 11) measured_after.1, some_buffer measured.pool measured_after.0)

held_42 : table.item measuring.app.store (get_key_id water_flow_key seed) ≡ some (decimal 42)
unfolding decimal get_key_id
held_42 = refl

flow_reaches_frame_example :
    let w₂ = msg_receiver run_all no_callback 300 measured in
    let w₃ = msg_receiver run_all no_callback 100 w₂ in
    c_string w₃.app.tx_data ≡ flow_prefix ++ decimal 42
flow_reaches_frame_example =
    flow_reaches_frame run_all-Handles no_callback-Deliveries sensor_address event_address 1 []
      (record { entry = refl; queue = refl; dispatches = refl })
      (record { entry = refl; queue = refl; dispatches = refl })
      (record { entry = refl; queue = refl; dispatches = refl }) (omega arith) (omega arith)
      (omega arith) (omega arith) (omega arith) (omega arith) (omega arith) (omega arith)
      (omega arith) measuring-PoolIsOwned refl refl refl refl measuring-CanPost 42 (omega arith)
      (inl held_42) measured-CanPost
