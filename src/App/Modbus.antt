-- ===== src/App/Modbus.antt =====
-- app/src/modbus_rtu.c over Zephyr's Modbus client, which is an interface: its state, the interface's
-- number or a negative code, the status of a client's start, and reads and writes of registers.
use zephyr_project.Prelude.{List, if◌then◌else◌, ℕ}
use zephyr_project.Prelude.Int.{is_neg, is_zero, negsuc, pos, ℤ}

pub record ModbusDriver : Type 1 where
  pub State : Type 0
  pub modbus_iface_get_by_name : State → ℤ
  pub modbus_init_client : State → ℤ → ℤ × State
  pub modbus_read_holding_regs : State → ℤ → ℕ → ℕ → ℕ → ℤ × List ℕ × State
  pub modbus_write_holding_regs : State → ℤ → ℕ → ℕ → List ℕ → ℤ × State

-- `iface` and the driver.
pub record ModbusState (d : ModbusDriver) : Type 0 where
  pub iface : ℤ
  pub driver : d.State

module _ (d : ModbusDriver) where
  unfoldable pub init_modbus_client : ModbusState d → ℤ × ModbusState d
  init_modbus_client s =
      let iface = d.modbus_iface_get_by_name s.driver in
      let r = d.modbus_init_client s.driver iface in
      if is_neg iface
      then (negsuc 0, record s { iface = iface })
      else (if is_zero r.0 then pos 0 else negsuc 0, record { iface = iface; driver = r.1 })

  -- The status, and the registers that were read.
  unfoldable pub read_holding_regs : ℕ → ℕ → ℕ → ModbusState d → ℤ × List ℕ × ModbusState d
  read_holding_regs unit_id start_addr num_regs s =
      let r = d.modbus_read_holding_regs s.driver s.iface unit_id start_addr num_regs in
      (r.0, r.1, record s { driver = r.2 })

  unfoldable pub write_holding_regs : ℕ → ℕ → List ℕ → ModbusState d → ℤ × ModbusState d
  write_holding_regs unit_id start_addr reg_buf s =
      let r = d.modbus_write_holding_regs s.driver s.iface unit_id start_addr reg_buf in
      (r.0, record s { driver = r.1 })
