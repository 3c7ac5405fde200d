-- ===== src/App/Tasks/Joined.antt =====
-- What holds once `join_lorawan_msg_handler` has returned.
use zephyr_project.App.Join.{join_loop_succeeds, nonces}
use zephyr_project.App.Posting.{set_app-Posts}
use zephyr_project.App.State.{AppState, app_env, set_app}
use zephyr_project.App.Tasks.{join_lorawan_msg_handler}
use zephyr_project.Config.Decimal.{snprintf_u}
use zephyr_project.Config.DevNonce.{get_dev_nonce}
use zephyr_project.Config.Hash.{dev_nonce_key}
use zephyr_project.Config.SysCfg.{Nvs, syscfg_set}
use zephyr_project.Framework.SysCore.Sending.{queue_at}
use zephyr_project.Framework.SysMsg.{sysmsg_create_and_send}
use zephyr_project.Framework.SysMsg.Aside.{sysmsg_create_and_send-app}
use zephyr_project.Framework.SysMsg.Delivery.{plain_msg, sysmsg_create_and_send-Creates}
use zephyr_project.Framework.Types.{
  dispatch_ok, msg_id_control_task, msg_id_sensor_task, smc_sensor_measure,
}
use zephyr_project.Framework.World.{World}
use zephyr_project.Platform.{Platform}
use zephyr_project.Prelude.{[], ap, false, refl, some, suc, true, ℕ, ◌%◌, ◌+◌, ◌<◌, ◌^◌, ◌∙◌, ◌≡◌}
use zephyr_project.Prelude.Int.{is_zero, pos, ℤ}
use zephyr_project.Framework.SysCore.NewBuffer.{Creates-Posts, Posts}

module _ {p : Platform} {n : Nvs} where
  -- The nonces asked with, the nonce afterwards, which the settings hold, and the message that starts
  -- a measurement.
  pub record Joined (k : ℕ) (w w' : World (app_env p n)) : Type 0 where
    pub nonce : w'.app.dev_nonce ≡ (w.app.dev_nonce + suc k) % 2 ^ 16
    pub stored : get_dev_nonce n w'.app.store ≡ (w.app.dev_nonce + suc k) % 2 ^ 16
    pub measures :
        Posts w
          (queue_at w msg_id_sensor_task)
          (plain_msg smc_sensor_measure msg_id_sensor_task msg_id_control_task)
          w'

  -- When the join attempts before the (k+1)-th fail, the (k+1)-th succeeds and the settings accept
  -- every write, the handler returns for any fuel above k. It has asked with k+1 consecutive nonces
  -- from the current one on, the next nonce is current and stored, and a new message
  -- SMC_SENSOR_MEASURE stands at the end of the sensor task's queue, or no queue and no block changed.
  pub join_lorawan_msg_handler-Joined :
      (join : ℕ → ℕ → ℤ) (fuel k : ℕ) (w : World (app_env p n))
      → k < fuel
      → ((j m : ℕ) → j < k → is_zero (join j m) ≡ false)
      → ((m : ℕ) → is_zero (join k m) ≡ true)
      → ((m : ℕ) (s : n.Store) → (syscfg_set n dev_nonce_key (snprintf_u 10 m) s).0 ≡ pos 0)
      → (w' : World (app_env p n)) × (join_lorawan_msg_handler join fuel w
          ≡ some (dispatch_ok, nonces n join (suc k) w.app.dev_nonce [], w'))
        × Joined k w w'
  unfolding join_lorawan_msg_handler
  join_lorawan_msg_handler-Joined join fuel k w lt fails good writes =
      let nonce = w.app.dev_nonce in
      let (s, e, kept) = join_loop_succeeds n join fuel k nonce w.app.store lt fails good writes in
      let a = record (w.app) { dev_nonce = (nonce + suc k) % 2 ^ 16; store = s } in
      let sent =
        sysmsg_create_and_send msg_id_control_task msg_id_sensor_task smc_sensor_measure
          (set_app a w) in
      let same : sent.1.app ≡ a =
        sysmsg_create_and_send-app msg_id_control_task msg_id_sensor_task smc_sensor_measure
          (set_app a w) in
      (
        sent.1,
        rw (join_lorawan_msg_handler, e) refl,
        record {
          nonce = ap (λ (x : AppState n). x.dev_nonce) same;
          stored = ap (λ (x : AppState n). get_dev_nonce n x.store) same ∙ kept;
          measures = set_app-Posts a w _ _ _ (
              Creates-Posts (set_app a w) _ _ _ (
                sysmsg_create_and_send-Creates msg_id_control_task msg_id_sensor_task
                  smc_sensor_measure (set_app a w)));
        },
      )
