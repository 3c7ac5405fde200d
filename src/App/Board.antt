-- ===== src/App/Board.antt =====
-- app/src/bsp.c over Zephyr's GPIO driver, which is an interface. The flow counter of this file is in
-- App/Sensor. Of the logging, `bsp_init` keeps the names of the devices that it reports.
-- The devices of the board: the static gpio_dt_spec objects, and the radio.
use zephyr_project.Prelude.{
  Bool, List, Option, [], if◌then◌else◌, some, true, ◌∷◌, ◌≡◌, ℕ, ◌==◌, ◌∙◌, refl,
}
use zephyr_project.Prelude.Int.{is_zero, ℤ}

pub data Pin : Type 0 where
  water_flower power_ctrl battery_ctrl relay relay_2 led_state1 led_state2 : Pin

abbrev pub pin_number : Pin → ℕ
pin_number water_flower = 0
pin_number power_ctrl = 1
pin_number battery_ctrl = 2
pin_number relay = 3
pin_number relay_2 = 4
pin_number led_state1 = 5
pin_number led_state2 = 6

pub data Device : Type 0 where
  port_of : Pin → Device
  lora_dev : Device

-- GPIO_INPUT and GPIO_OUTPUT_ACTIVE.
pub data Direction : Type 0 where
  gpio_input gpio_output_active : Direction

-- The driver's state, its calls, and what they do to a pin: how it is configured, its physical level,
-- whether an edge runs the callback.
pub record Gpio : Type 1 where
  pub State : Type 0
  pub gpio_is_ready_dt : State → Pin → Bool
  pub device_is_ready : State → Bool
  pub gpio_pin_get_raw : State → Pin → ℤ
  pub gpio_pin_set_raw : State → Pin → ℤ → ℤ × State
  pub gpio_pin_toggle : State → Pin → ℤ × State
  pub gpio_pin_configure_dt : State → Pin → Direction → ℤ × State
  pub gpio_pin_interrupt_configure_dt : State → Pin → ℤ × State
  pub gpio_add_callback : State → Pin → ℤ × State
  pub direction : State → Pin → Option Direction
  pub configure_ok :
      (s : State) (a : Pin) (d : Direction)
      → is_zero (gpio_pin_configure_dt s a d).0 ≡ true
      → (b : Pin)
      → direction (gpio_pin_configure_dt s a d).1 b
        ≡ (if pin_number b == pin_number a then some d else direction s b)
  pub interrupt_keeps :
      (s : State) (a b : Pin) → direction (gpio_pin_interrupt_configure_dt s a).1 b ≡ direction s b
  pub callback_keeps :
      (s : State) (a b : Pin) → direction (gpio_add_callback s a).1 b ≡ direction s b

module _ (g : Gpio) where
  unfoldable pub bsp_pin_get : Pin → g.State → ℤ
  bsp_pin_get a s = g.gpio_pin_get_raw s a

  unfoldable pub bsp_pin_set : Pin → ℤ → g.State → ℤ × g.State
  bsp_pin_set a value s = g.gpio_pin_set_raw s a value

  unfoldable pub bsp_pin_toggle : Pin → g.State → ℤ × g.State
  bsp_pin_toggle a s = g.gpio_pin_toggle s a

  unfoldable pub power_control : ℤ → g.State → ℤ × g.State
  power_control value s = bsp_pin_set power_ctrl value s

  unfoldable pub battery_control : ℤ → g.State → ℤ × g.State
  battery_control value s = bsp_pin_set battery_ctrl value s

  unfoldable pub relay_control : ℤ → g.State → ℤ × g.State
  relay_control value s = bsp_pin_set relay value s

  unfoldable pub relay_toggle : g.State → ℤ × g.State
  relay_toggle s = bsp_pin_toggle relay s

  unfoldable pub relay_2_toggle : g.State → ℤ × g.State
  relay_2_toggle s = bsp_pin_toggle relay_2 s

  unfoldable pub led_state1_toggle : g.State → ℤ × g.State
  led_state1_toggle s = bsp_pin_toggle led_state1 s

  unfoldable pub led_state2_toggle : g.State → ℤ × g.State
  led_state2_toggle s = bsp_pin_toggle led_state2 s

  -- The statuses of the driver are not looked at.
  unfoldable pub configure_outputs : g.State → g.State
  configure_outputs s =
      let s₁ = (g.gpio_pin_configure_dt s water_flower gpio_input).1 in
      let s₂ = (g.gpio_pin_configure_dt s₁ relay gpio_output_active).1 in
      let s₃ = (g.gpio_pin_configure_dt s₂ relay_2 gpio_output_active).1 in
      let s₄ = (g.gpio_pin_configure_dt s₃ led_state1 gpio_output_active).1 in
      let s₅ = (g.gpio_pin_configure_dt s₄ led_state2 gpio_output_active).1 in
      let s₆ = (g.gpio_pin_configure_dt s₅ power_ctrl gpio_output_active).1 in
      (g.gpio_pin_configure_dt s₆ battery_ctrl gpio_output_active).1

  unfoldable pub gpio_pin_interrupt_set : g.State → g.State
  gpio_pin_interrupt_set s =
      (g.gpio_add_callback (g.gpio_pin_interrupt_configure_dt s water_flower).1 water_flower).1

  -- The name in the message of `led_state2` is that of `led_state1`.
  unfoldable pub report_unready : g.State → List Device
  report_unready s =
      let unless : Bool → Device → List Device → List Device =
        λ ready d ds. if ready then ds else d ∷ ds in
      unless (g.gpio_is_ready_dt s relay) (port_of relay) (
        unless (g.gpio_is_ready_dt s relay_2) (port_of relay_2) (
          unless (g.gpio_is_ready_dt s power_ctrl) (port_of power_ctrl) (
            unless (g.gpio_is_ready_dt s battery_ctrl) (port_of battery_ctrl) (
              unless (g.device_is_ready s) lora_dev (
                unless (g.gpio_is_ready_dt s water_flower) (port_of water_flower) (
                  unless (g.gpio_is_ready_dt s led_state1) (port_of led_state1)
                    (unless (g.gpio_is_ready_dt s led_state2) (port_of led_state1) [])))))))

  unfoldable pub bsp_init : g.State → List Device × g.State
  bsp_init s = (report_unready s, gpio_pin_interrupt_set (configure_outputs s))

-- The flow counter's pin is the only input.
abbrev pub direction_of : Pin → Direction
direction_of water_flower = gpio_input
direction_of _ = gpio_output_active

-- What the assignments of `configure_outputs` leave, last one first.
abbrev last_set : Pin → Option Direction → Option Direction
last_set a before =
    let is : Pin → Bool = λ b. pin_number a == pin_number b in
    if is battery_ctrl
    then some gpio_output_active
    else if is power_ctrl
    then some gpio_output_active
    else if is led_state2
    then some gpio_output_active
    else if is led_state1
    then some gpio_output_active
    else if is relay_2
    then some gpio_output_active
    else if is relay
    then some gpio_output_active
    else if is water_flower
    then some gpio_input
    else before

last_set-direction_of :
    (a : Pin) (before : Option Direction) → last_set a before ≡ some (direction_of a)
last_set-direction_of water_flower before = refl
last_set-direction_of power_ctrl before = refl
last_set-direction_of battery_ctrl before = refl
last_set-direction_of relay before = refl
last_set-direction_of relay_2 before = refl
last_set-direction_of led_state1 before = refl
last_set-direction_of led_state2 before = refl

module _ (g : Gpio)
    (configures : (s : g.State) (a : Pin) (d : Direction)
      → is_zero (g.gpio_pin_configure_dt s a d).0 ≡ true) where
  -- `bsp_init` configures every pin.
  pub bsp_init-direction :
      (s : g.State) (a : Pin) → g.direction (bsp_init g s).1 a ≡ some (direction_of a)
  unfolding bsp_init configure_outputs gpio_pin_interrupt_set
  bsp_init-direction s a =
      let set : (v : g.State) (b : Pin) (d : Direction)
          → g.direction (g.gpio_pin_configure_dt v b d).1 a
            ≡ (if pin_number a == pin_number b then some d else g.direction v a) =
        λ v b d. g.configure_ok v b d (configures v b d) a in
      let s₁ = (g.gpio_pin_configure_dt s water_flower gpio_input).1 in
      let s₂ = (g.gpio_pin_configure_dt s₁ relay gpio_output_active).1 in
      let s₃ = (g.gpio_pin_configure_dt s₂ relay_2 gpio_output_active).1 in
      let s₄ = (g.gpio_pin_configure_dt s₃ led_state1 gpio_output_active).1 in
      let s₅ = (g.gpio_pin_configure_dt s₄ led_state2 gpio_output_active).1 in
      let s₆ = (g.gpio_pin_configure_dt s₅ power_ctrl gpio_output_active).1 in
      g.callback_keeps _ water_flower a
      ∙ g.interrupt_keeps _ water_flower a
      ∙ set s₆ battery_ctrl gpio_output_active
      ∙ rw
          (
            set s₅ power_ctrl gpio_output_active,
            set s₄ led_state2 gpio_output_active,
            set s₃ led_state1 gpio_output_active,
            set s₂ relay_2 gpio_output_active,
            set s₁ relay gpio_output_active,
            set s water_flower gpio_input,
          )
          (last_set-direction_of a (g.direction s a))
