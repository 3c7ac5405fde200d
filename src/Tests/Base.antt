-- ===== src/Tests/Base.antt =====
-- A state with the three tasks registered: the receivers at 100, 200 and 300, their tasks at 101, 201
-- and 301, their queues at 11, 12 and 13, each with room for two messages.
use zephyr_project.App.Event.{event_task_msg_dispatcher}
use zephyr_project.App.Sensor.{sensor_task_msg_dispatcher}
use zephyr_project.App.State.{Handler, app_env}
use zephyr_project.App.Tasks.{control_task_msg_dispatcher, TaskAddress}
use zephyr_project.Config.Model.{table}
use zephyr_project.Framework.BufferPool.{BpStats, zero_bph, zeroed}
use zephyr_project.Framework.Types.{Msg, MsgRecv}
use zephyr_project.Framework.World.{Env, MsgTaskEntry, World}
use zephyr_project.Platform.{forever, no_wait}
use zephyr_project.Platform.Model.{Queue, model}
use zephyr_project.Prelude.{
  Option, [], false, if◌then◌else◌, none, replicate, some, true, update, ℕ, ◌==◌, ◌∷◌,
}

abbrev pub env : Env
env = app_env model table

abbrev pub entries : ℕ → MsgTaskEntry
entries i =
    if i == 1
    then record { p_msg_recv = 100; in_use = true }
    else if i == 2
    then record { p_msg_recv = 200; in_use = true }
    else if i == 3
    then record { p_msg_recv = 300; in_use = true }
    else record { p_msg_recv = 0; in_use = false }

abbrev pub receiver : ℕ → ℕ → (ℕ → Option Handler) → MsgRecv Handler
receiver id queue_address dispatcher = record {
  id = id;
  p_queue = queue_address;
  rx_block_ticks = forever;
  p_msg_dispatcher = some dispatcher;
  accept_broadcast = none;
}

abbrev pub receivers : ℕ → MsgRecv Handler
receivers a =
    if a == 100
    then receiver 1 11 control_task_msg_dispatcher
    else if a == 200
    then receiver 2 12 sensor_task_msg_dispatcher
    else receiver 3 13 event_task_msg_dispatcher

abbrev pub stats : BpStats
stats = record {
  initialized = true;
  space_available = 1024;
  min_space_available = 1024;
  max_size = 0;
  min_size = 1024;
  allocs = 0;
  cur_allocs = 0;
  max_allocs = 0;
  take_failures = 0;
  last_fail_size = 0;
  windex = 0;
  window = 0 ∷ 0 ∷ 0 ∷ [];
}

abbrev pub no_queue : Queue
no_queue = record { items = []; cap = 2 }

abbrev pub base : World env
base = record {
  pool = record {
    heap = [];
    mem = λ _. zeroed 4;
    bph = λ _. zero_bph;
    bps = stats;
    take_failed = false;
  };
  msg_task_registry = entries;
  recv = receivers;
  task = λ _. record {
    rxer = 100;
    timer = 1;
    timer_duration_ticks = no_wait;
    timer_period_ticks = no_wait;
  };
  queue = λ _. no_queue;
  in_isr = false;
  timer_calls = [];
  app = record {
    store = λ _. none;
    dev_nonce = 7;
    b_send_msg_lorawan = false;
    tx_data = replicate 51 0;
    b_factory_reset = false;
    b_task_started = false;
    event_task_event_id = 5;
    water_flower_count = 41;
    outputs = [];
  };
}

-- `base` with block 1 allocated, whose buffer, at 9, holds `m` and stands in the control task's queue.
abbrev pub with_msg : Msg → World env
with_msg m = record base {
  pool = record (base.pool) { heap = 1 ∷ []; mem = update base.pool.mem 9 m };
  queue = update base.queue 11 (record { items = 9 ∷ []; cap = 2 });
}

-- Where the tasks' objects stand.
abbrev pub control_address : TaskAddress
control_address = record { msg_task = 101; rxer = 100; timer = 102; p_queue = 11 }

abbrev pub sensor_address : TaskAddress
sensor_address = record { msg_task = 201; rxer = 200; timer = 202; p_queue = 12 }

abbrev pub event_address : TaskAddress
event_address = record { msg_task = 301; rxer = 300; timer = 302; p_queue = 13 }

-- `base` with nothing registered.
abbrev pub unregistered : World env
unregistered = record base { msg_task_registry = λ _. record { p_msg_recv = 0; in_use = false } }
