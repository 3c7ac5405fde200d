-- ===== src/Tests/Board.antt =====
-- The start of the program and the analog input at concrete states, on small drivers.
use zephyr_project.Config.Model.{table}
use zephyr_project.App.Adc.{AdcDriver, AdcState, after_reads, after_reads-setups}
use zephyr_project.App.Board.{Direction, Gpio, Pin, direction_of, pin_number}
use zephyr_project.App.Event.{event_task_msg_dispatcher}
use zephyr_project.App.Sensor.{sensor_task_msg_dispatcher}
use zephyr_project.App.System.Boot.{Machine, main, main-Booted}
use zephyr_project.App.Tasks.{control_task_msg_dispatcher, ctrl_task_start}
use zephyr_project.App.Tasks.Startup.{Reached}
use zephyr_project.Config.SysCfg.{Flash}
use zephyr_project.Framework.Ownership.Receiving.{PoolIsOwned, at_start-PoolIsOwned}
use zephyr_project.Platform.Model.{model}
use zephyr_project.Prelude.{
  Option, arith, false, if◌then◌else◌, none, refl, some, true, ℕ, ◌+◌, ◌==◌, ◌≡◌,
}
use zephyr_project.Prelude.Int.{pos}
use zephyr_project.Tests.Base.{control_address, event_address, sensor_address, unregistered}

abbrev gpio : Gpio
gpio = record {
  State = Pin → Option Direction;
  gpio_is_ready_dt = λ s a. true;
  device_is_ready = λ s. true;
  gpio_pin_get_raw = λ s a. pos 0;
  gpio_pin_set_raw = λ s a v. (pos 0, s);
  gpio_pin_toggle = λ s a. (pos 0, s);
  gpio_pin_configure_dt =
      λ s a d. (pos 0, λ b. if pin_number b == pin_number a then some d else s b);
  gpio_pin_interrupt_configure_dt = λ s a. (pos 0, s);
  gpio_add_callback = λ s a. (pos 0, s);
  direction = λ s a. s a;
  configure_ok = λ s a d ok b. refl;
  interrupt_keeps = λ s a b. refl;
  callback_keeps = λ s a b. refl;
}

abbrev flash : Flash table
flash = record { is_ready = true; page_size = (pos 0, 2048); nvs_mount = λ size count. pos 0 }

abbrev machine : Machine gpio model table
machine = record {
  board = λ a. none;
  fs = record { sector_size = 0; sector_count = 0 };
  world = unregistered;
}

unregistered-PoolIsOwned : PoolIsOwned unregistered
unregistered-PoolIsOwned = at_start-PoolIsOwned unregistered (λ b. refl) (λ q. refl)

main-Booted_example :
    let m' = (main flash control_address 60_000 machine).1 in
    let w' = ctrl_task_start control_address sensor_address event_address 1000 (pos 0) m'.world in
    ((a : Pin) → gpio.direction m'.board a ≡ some (direction_of a))
    × Reached w' 1 control_address control_task_msg_dispatcher
    × Reached w' 2 sensor_address sensor_task_msg_dispatcher
    × Reached w' 3 event_address event_task_msg_dispatcher
    × PoolIsOwned w'
    × (w'.app.b_task_started ≡ true)
main-Booted_example =
    main-Booted (λ s a d. refl) flash control_address sensor_address event_address 60_000 1000
      (pos 0) machine refl refl refl (omega arith) (omega arith) (omega arith) (omega arith)
      (omega arith) (omega arith) (omega arith) (omega arith) (omega arith) unregistered-PoolIsOwned

-- One channel, whose samples count up.
abbrev adc : AdcDriver
adc = record {
  State = ℕ;
  channel_count = 1;
  some_channel = omega arith;
  device_is_ready = λ s channel. true;
  adc_channel_setup_dt = λ s channel. (pos 0, s);
  adc_read = λ s channel. (pos 0, pos s, s + 1);
}

abbrev before_reads : AdcState adc
before_reads = record { driver = 7; is_initialized = false; setups = 0 }

after_reads-setups_example :
    let s' = after_reads adc 3 before_reads in (s'.is_initialized ≡ true) × (s'.setups ≡ 1)
after_reads-setups_example = after_reads-setups adc 2 before_reads (λ v. refl) (λ v. refl)
