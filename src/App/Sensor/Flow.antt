-- ===== src/App/Sensor/Flow.antt =====
-- The flow count from the pin's interrupt through the settings into the event.
use zephyr_project.App.Posting.{
  sensor_event_water_flow, event_message, emit-Posts, set_app-Posts, take_fill_send-Posts,
  emit-Delivered, take_fill_send, take_fill_send-Delivered,
}
use zephyr_project.App.State.{app_env}
use zephyr_project.Config.Decimal.{atoi, decimal, snprintf_u}
use zephyr_project.Config.Decimal.RoundTrip.{
  atoi-decimal, copy_over-zeros, decimal-ne-nil, length-decimal,
}
use zephyr_project.Config.Hash.{get_key_id, seed, water_flow_key}
use zephyr_project.Config.SysCfg.{Nvs, copy_over, syscfg_get, syscfg_set}
use zephyr_project.Config.SysCfg.Store.{syscfg_get-set, got_fits, syscfg_get-got}
use zephyr_project.Framework.SysCore.Sending.{queue_at}
use zephyr_project.Framework.Types.{
  msg_id_event_task, msg_id_sensor_task, smc_event_trigger, Msg, sizeof_event_msg,
}
use zephyr_project.Framework.World.{World}
use zephyr_project.Platform.{Platform}
use zephyr_project.Prelude.{
  ==_refl, [], add32, arith, length, refl, replicate, take, take-all, ℕ, ◌+◌, ◌-◌, ◌<◌, ◌^◌, ◌∙◌,
  ◌∷◌, ◌≡◌, if_elim, ◌==◌, ◌≢◌, inl, inr, none, some, ◌≤◌, ◌⊎◌,
}
use zephyr_project.Prelude.Int.{pos}
use zephyr_project.App.Sensor.{
  sensor_measure_msg_handler, water_flower_check, fill_sensor_event, send_sensor_event,
  start_sensor_interval,
}
use zephyr_project.Framework.SysCore.NewBuffer.{Posts}
use zephyr_project.Framework.Broadcast.{accepts}
use zephyr_project.Framework.BufferPool.{buffer_pool_take, zeroed}
use zephyr_project.Framework.Effect.{Delivered}
use zephyr_project.Framework.SysMsg.Progress.{Accepts}

-- The count that the settings hold.
abbrev pub flow_in : (n : Nvs) → n.Store → ℕ
flow_in n s = atoi (syscfg_get n water_flow_key (replicate 12 0) s).1

atoi_zeros : atoi (replicate 12 0) ≡ 0
unfolding atoi
atoi_zeros = refl

-- The settings hold the count `v` as a string, or there is none yet, which is read as 0.
abbrev pub HoldsCount : (n : Nvs) → n.Store → ℕ → Type 0
HoldsCount n s v =
    (n.item s (get_key_id water_flow_key seed) ≡ some (decimal v))
    ⊎ ((n.item s (get_key_id water_flow_key seed) ≡ none) × (v ≡ 0))

pub flow_in-HoldsCount :
    (n : Nvs) (s : n.Store) (v : ℕ) → v < 2 ^ 31 → HoldsCount n s v → flow_in n s ≡ v
flow_in-HoldsCount n s v int (inl held) =
    let fits : length (decimal v) ≤ 12 = omega (arith, length-decimal v) in
    let read : syscfg_get n water_flow_key (replicate 12 0) s
        ≡ (pos 0, copy_over (replicate 12 0) (decimal v)) =
      syscfg_get-got n water_flow_key (replicate 12 0) s
      ∙ rw held (got_fits (decimal v) (replicate 12 0) (decimal-ne-nil v) fits) in
    rw (read, copy_over-zeros 12 (decimal v) fits)
      (atoi-decimal v (12 - length (decimal v)) (omega arith))
flow_in-HoldsCount n s v int (inr (none_yet, is_zero_)) =
    rw (syscfg_get-got n water_flow_key (replicate 12 0) s, none_yet, is_zero_) atoi_zeros

module _ {p : Platform} {n : Nvs} where
  send_sensor_event-Posts :
      (event_type event_data : ℕ) (w : World (app_env p n))
      → Posts w
          (queue_at w msg_id_event_task)
          (event_message smc_event_trigger msg_id_event_task msg_id_sensor_task
            (event_type ∷ event_data ∷ 0 ∷ 0 ∷ []))
          (send_sensor_event event_type event_data w)
  unfolding send_sensor_event fill_sensor_event
  send_sensor_event-Posts event_type event_data w =
      take_fill_send-Posts sizeof_event_msg (fill_sensor_event event_type event_data) w

  start_sensor_interval-Posts :
      (remaining q : ℕ) (m : Msg) (w w' : World (app_env p n))
      → Posts w q m w'
      → Posts w q m (start_sensor_interval remaining w')
  unfolding start_sensor_interval
  start_sensor_interval-Posts remaining q m w w' h =
      if_elim (Posts w q m) (remaining == 0) (λ _. emit-Posts _ w w' q m h) (λ _. h)

  pub sensor_measure-Delivered :
      (remaining : ℕ) (w : World (app_env p n))
      → Accepts w msg_id_event_task
      → (buffer_pool_take p sizeof_event_msg w.pool).0 ≢ 0
      → (b : ℕ) × Delivered w
          (sensor_measure_msg_handler remaining w).1
          b
          (queue_at w msg_id_event_task)
          (event_message smc_event_trigger msg_id_event_task msg_id_sensor_task
            (sensor_event_water_flow ∷ flow_in n w.app.store ∷ 0 ∷ 0 ∷ []))
  unfolding sensor_measure_msg_handler send_sensor_event fill_sensor_event start_sensor_interval
  sensor_measure-Delivered remaining w accepts some_buffer =
      let fill = fill_sensor_event sensor_event_water_flow (flow_in n w.app.store) in
      let m = fill (zeroed sizeof_event_msg) in
      let q = queue_at w msg_id_event_task in
      let sent = take_fill_send sizeof_event_msg fill w in
      let (b, d) =
        take_fill_send-Delivered sizeof_event_msg fill w accepts (omega arith) some_buffer in
      (
        b,
        if_elim (λ (v : World (app_env p n)). Delivered w v b q m) (remaining == 0)
            (λ _. emit-Delivered _ w sent b q m d) (λ _. d),
      )

  -- The edge counted by `water_flower_check` is what the next measurement reports, when the write
  -- reports no error and the count is an int: a new event message with the count stands at the end
  -- of the event task's queue, or no queue and no block changed.
  pub sensor_measure-water_flower_check :
      (remaining : ℕ) (w : World (app_env p n))
      → w.app.water_flower_count + 1 < 2 ^ 31
      → (syscfg_set n water_flow_key
          (snprintf_u 12 (add32 w.app.water_flower_count 1))
          w.app.store).0
        ≡ pos 0
      → Posts w
          (queue_at w msg_id_event_task)
          (event_message smc_event_trigger msg_id_event_task msg_id_sensor_task
            (sensor_event_water_flow ∷ (w.app.water_flower_count + 1) ∷ 0 ∷ 0 ∷ []))
          (sensor_measure_msg_handler remaining (water_flower_check w)).1
  unfolding sensor_measure_msg_handler water_flower_check snprintf_u
  sensor_measure-water_flower_check remaining w lt wrote =
      let m = add32 w.app.water_flower_count 1 in
      let same : m ≡ w.app.water_flower_count + 1 = omega arith in
      let whole : take 11 (decimal m) ≡ decimal m =
        take-all 11 (decimal m) (omega (arith, length-decimal m)) in
      let wrote' : (syscfg_set n water_flow_key (decimal m) w.app.store).0 ≡ pos 0 =
        rw whole at wrote in
      let value = copy_over (replicate 12 0) (decimal m) in
      let stored = (syscfg_set n water_flow_key (decimal m) w.app.store).1 in
      let read : syscfg_get n water_flow_key (replicate 12 0) stored ≡ (pos 0, value) =
        syscfg_get-set n water_flow_key water_flow_key (decimal m) (replicate 12 0) w.app.store
          wrote' (decimal-ne-nil m) (omega (arith, length-decimal m))
        ∙ rw (==_refl (get_key_id water_flow_key seed)) refl in
      let back : atoi value ≡ m =
        rw (copy_over-zeros 12 (decimal m) (omega (arith, length-decimal m)))
          (atoi-decimal m (12 - length (decimal m)) (omega arith)) in
      rw (whole, read, back, same)
        (start_sensor_interval-Posts remaining _ _ w _
          (set_app-Posts _ w _ _ _ (send_sensor_event-Posts _ _ _)))
