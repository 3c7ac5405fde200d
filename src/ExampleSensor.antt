-- ===== src/ExampleSensor.antt =====
-- lib/custom_lib/custom_lib.c, and drivers/sensor/examplesensor/examplesensor.c over Zephyr's GPIO
-- driver: is the input's port ready, what its configuration returns, what the pin reads.
-- The default is CONFIG_CUSTOM_LIB_GET_VALUE_DEFAULT.
use zephyr_project.Prelude.{Bool, if◌then◌else◌, not}
use zephyr_project.Prelude.Int.{is_neg, is_zero, negsuc, pos, ℤ}

unfoldable pub custom_lib_get_value : ℤ → ℤ → ℤ
custom_lib_get_value default return_value_if_nonzero =
    if is_zero return_value_if_nonzero then default else return_value_if_nonzero

-- -ENOTSUP, -ENODEV
abbrev pub enotsup : ℤ
enotsup = negsuc 133

abbrev pub enodev : ℤ
enodev = negsuc 18

pub record InputPin : Type 0 where
  pub device_is_ready : Bool
  pub gpio_pin_configure_dt : ℤ
  pub gpio_pin_get_dt : ℤ

-- struct examplesensor_data
pub record ExamplesensorData : Type 0 where
  pub state : ℤ

unfoldable pub examplesensor_sample_fetch : InputPin → ExamplesensorData → ℤ × ExamplesensorData
examplesensor_sample_fetch input data_ = (pos 0, record data_ { state = input.gpio_pin_get_dt })

-- The channel is SENSOR_CHAN_PROX or another one; `val1` is written for that one only.
unfoldable pub examplesensor_channel_get : Bool → ExamplesensorData → ℤ → ℤ × ℤ
examplesensor_channel_get is_prox data_ val1 =
    if not is_prox then (enotsup, val1) else (pos 0, data_.state)

unfoldable pub examplesensor_init : InputPin → ℤ
examplesensor_init input =
    if not input.device_is_ready
    then enodev
    else if is_neg input.gpio_pin_configure_dt
    then input.gpio_pin_configure_dt
    else pos 0
