-- ===== src/App/Adc.antt =====
-- app/src/adc.c over Zephyr's ADC driver, which is an interface, and floating-point operations, which
-- are a parameter. The conversion to millivolts that is only printed is left out.
-- BAD_ANALOG_READ
use zephyr_project.Prelude.{
  Bool, Option, add32, false, if◌then◌else◌, ltb, none, not, some, sub32, suc, true, zero, ℕ, ◌+◌,
  ◌==◌, ◌≡◌, ◌≤◌, Bool-cases, arith, inl, inr, refl, ◌∙◌,
}
use zephyr_project.Prelude.Int.{is_zero, negsuc, pos, ℤ}

abbrev pub bad_analog_read : ℤ
bad_analog_read = negsuc 122

-- `sv == BAD_ANALOG_READ`
unfoldable pub is_bad : ℤ → Bool
is_bad (pos n) = false
is_bad (negsuc n) = n == 122

-- The channels of the device tree by their index, and the driver: is a channel's device ready; the
-- status of a setup; the status of a read and the sample that it leaves in the buffer.
pub record AdcDriver : Type 1 where
  pub State : Type 0
  pub channel_count : ℕ
  pub some_channel : 1 ≤ channel_count
  pub device_is_ready : State → ℕ → Bool
  pub adc_channel_setup_dt : State → ℕ → ℤ × State
  pub adc_read : State → ℕ → ℤ × ℤ × State

-- The float type and what the code does with it.
pub record Float32 : Type 1 where
  pub Float : Type 0
  pub of_int : ℤ → Float
  pub input_volt_range : Float
  pub value_range_12_bit : Float
  pub times : Float → Float → Float
  pub divided_by : Float → Float → Float

-- `is_initialized` and the driver; `setups` counts the calls of `adc_channel_setup_dt`, for the theorem.
pub record AdcState (d : AdcDriver) : Type 0 where
  pub driver : d.State
  pub is_initialized : Bool
  pub setups : ℕ

module _ (d : AdcDriver) where
  -- The index of the channel, none for NULL. An int is its 32-bit word, and the comparison with a
  -- size_t is unsigned.
  unfoldable pub get_adc_channel : ℕ → Option ℕ
  get_adc_channel index = if ltb d.channel_count (add32 index 1) then none else some index

  -- Sets the channel up, once that succeeds never again. A device that is ready is not NULL.
  unfoldable pub setup_once : ℕ → AdcState d → AdcState d
  setup_once channel s =
      let r = d.adc_channel_setup_dt s.driver channel in
      if s.is_initialized
      then s
      else record { driver = r.1; is_initialized = is_zero r.0; setups = s.setups + 1 }

  unfoldable pub use_channel : Option ℕ → AdcState d → Option ℕ × AdcState d
  use_channel none s = (none, s)
  use_channel (some channel) s =
      if not (d.device_is_ready s.driver channel)
      then (none, s)
      else (some channel, setup_once channel s)

  -- The channel, none for NULL. More channels than one count as one.
  unfoldable pub init_adc : AdcState d → Option ℕ × AdcState d
  init_adc s =
      let ch_count = if ltb 1 d.channel_count then 1 else d.channel_count in
      use_channel (get_adc_channel (sub32 ch_count 1)) s

  unfoldable pub sample_of : Option ℕ → AdcState d → ℤ × AdcState d
  sample_of none s = (bad_analog_read, s)
  sample_of (some channel) s =
      let r = d.adc_read s.driver channel in
      (if is_zero r.0 then r.1 else bad_analog_read, record s { driver = r.2 })

  unfoldable pub read_adc_value : AdcState d → ℤ × AdcState d
  read_adc_value s = let r = init_adc s in sample_of r.0 r.1

  unfoldable pub adc_read_voltage : (f : Float32) → AdcState d → f.Float × AdcState d
  adc_read_voltage f s =
      let r = read_adc_value s in
      let step = f.divided_by f.input_volt_range f.value_range_12_bit in
      (
        if is_bad r.0
            then f.of_int r.0
            else f.times (f.times (f.of_int r.0) step) (f.of_int (pos 2)),
        r.1,
      )

  -- `k` calls of `adc_read_voltage`, as far as the state goes.
  abbrev pub after_reads : ℕ → AdcState d → AdcState d
  after_reads zero s = s
  after_reads (suc k) s = after_reads k (read_adc_value s).1

  init_adc-ready :
      (s : AdcState d) → d.device_is_ready s.driver 0 ≡ true → init_adc s ≡ (some 0, setup_once 0 s)
  unfolding init_adc get_adc_channel use_channel
  init_adc-ready s ready =
      let one : (if ltb 1 d.channel_count then 1 else d.channel_count) ≡ 1 =
        ground (arith, d.some_channel) in
      let inside : ltb d.channel_count 1 ≡ false = ground (arith, d.some_channel) in
      rw (one, inside, ready) refl

  -- One read sets the channel up, unless that was done.
  read_adc_value-setups :
      (s : AdcState d)
      → d.device_is_ready s.driver 0 ≡ true
      → is_zero (d.adc_channel_setup_dt s.driver 0).0 ≡ true
      → let s' = (read_adc_value s).1 in
        (s'.is_initialized ≡ true)
        × (s'.setups ≡ (if s.is_initialized then s.setups else s.setups + 1))
  unfolding read_adc_value sample_of setup_once
  read_adc_value-setups s ready good =
      rw (init_adc-ready s ready) (elim (Bool-cases s.is_initialized) [
        | inl on ↦ rw on (refl, refl)
        | inr off ↦ rw off (good, refl)
      ])

  -- Where the device is ready and its setup succeeds, a state that was not initialised has set up the
  -- channel exactly once more after any number of reads but none, and is initialised; one that was
  -- initialised never sets it up again.
  pub after_reads-setups :
      (k : ℕ) (s : AdcState d)
      → ((v : d.State) → d.device_is_ready v 0 ≡ true)
      → ((v : d.State) → is_zero (d.adc_channel_setup_dt v 0).0 ≡ true)
      → let s' = after_reads (suc k) s in
        (s'.is_initialized ≡ true)
        × (s'.setups ≡ (if s.is_initialized then s.setups else s.setups + 1))
  after_reads-setups zero s ready good = read_adc_value-setups s (ready s.driver) (good s.driver)
  after_reads-setups (suc k) s ready good =
      let s₁ = (read_adc_value s).1 in
      let (on, once) = read_adc_value-setups s (ready s.driver) (good s.driver) in
      let (on', same) = after_reads-setups k s₁ ready good in (on', same ∙ rw on once)
