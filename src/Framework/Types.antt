-- ===== src/Framework/Types.antt =====
-- The data types and constants of include/framework: sys_core.h, msg_ids.h, sys_msg_types.h. A
-- message is its header and the 32-bit words of its payload: none in a msg_t, callback and data in
-- a cb_msg_t, type, data, id and time stamp in an event_msg_t.
use zephyr_project.Prelude.{ℕ, Bool, Option, List}
use zephyr_project.Prelude.Int.{ℤ, pos}
use zephyr_project.Platform.{Timeout}

pub record MsgHeader : Type 0 where
  pub msg_code : ℕ
  pub rx_id : ℕ
  pub tx_id : ℕ
  pub options : ℕ

pub record Msg : Type 0 where
  pub header : MsgHeader
  pub payload : List ℕ

pub data DispatchResult : Type 0 where
  dispatch_ok dispatch_error dispatch_do_not_free : DispatchResult

-- A dispatcher maps a message code to the name of a handler of type `H`; NULL is `none`.
pub record MsgRecv (H : Type 0) : Type 0 where
  pub id : ℕ
  pub p_queue : ℕ
  pub rx_block_ticks : Timeout
  pub p_msg_dispatcher : Option (ℕ → Option H)
  pub accept_broadcast : Option (Msg → Bool)

-- The receiver and the timer that a task owns are named by their addresses.
pub record MsgTask : Type 0 where
  pub rxer : ℕ
  pub timer : ℕ
  pub timer_duration_ticks : Timeout
  pub timer_period_ticks : Timeout

abbrev pub sys_success : ℤ
sys_success = pos 0

abbrev pub sys_error : ℤ
sys_error = pos 1

abbrev pub smc_invalid : ℕ
smc_invalid = 0

abbrev pub smc_periodic : ℕ
smc_periodic = 1

abbrev pub smc_sw_reset : ℕ
smc_sw_reset = 2

abbrev pub smc_value_changed : ℕ
smc_value_changed = 5

abbrev pub smc_factory_reset : ℕ
smc_factory_reset = 6

abbrev pub smc_join_lorawan : ℕ
smc_join_lorawan = 9

abbrev pub smc_send_data_lorawan : ℕ
smc_send_data_lorawan = 10

abbrev pub smc_read_power : ℕ
smc_read_power = 11

abbrev pub smc_sensor_measure : ℕ
smc_sensor_measure = 12

abbrev pub smc_sensor_event : ℕ
smc_sensor_event = 13

abbrev pub smc_event_trigger : ℕ
smc_event_trigger = 14

abbrev pub smc_sensor_check : ℕ
smc_sensor_check = 15

abbrev pub msg_option_none : ℕ
msg_option_none = 0

abbrev pub msg_option_callback : ℕ
msg_option_callback = 1

abbrev pub msg_id_reserved : ℕ
msg_id_reserved = 0

abbrev pub msg_id_app_start : ℕ
msg_id_app_start = 1

abbrev pub msg_id_control_task : ℕ
msg_id_control_task = 1

abbrev pub msg_id_sensor_task : ℕ
msg_id_sensor_task = 2

abbrev pub msg_id_event_task : ℕ
msg_id_event_task = 3

abbrev pub sizeof_msg : ℕ
sizeof_msg = 4

abbrev pub sizeof_cb_msg : ℕ
sizeof_cb_msg = 12

abbrev pub sizeof_event_msg : ℕ
sizeof_event_msg = 20

abbrev pub max_msg_recvs : ℕ
max_msg_recvs = 32
