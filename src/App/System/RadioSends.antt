-- ===== src/App/System/RadioSends.antt =====
-- What the handlers of the control task that ask the radio do to the framework's state.
use zephyr_project.App.State.{app_env, emit, set_app, lorawan_sent, relay_toggled}
use zephyr_project.App.Tasks.{join_lorawan_msg_handler}
use zephyr_project.App.Uplink.{
  send_data_lorawan_msg_handler, send_loop, c_string, clear_tx_data, is_again,
}
use zephyr_project.Config.SysCfg.{Nvs}
use zephyr_project.Framework.Deliveries.{Deliveries, next}
use zephyr_project.Framework.SysMsg.{sysmsg_create_and_send}
use zephyr_project.Framework.Types.{
  DispatchResult, dispatch_ok, msg_id_control_task, msg_id_sensor_task, smc_sensor_measure,
}
use zephyr_project.Framework.World.{World}
use zephyr_project.Platform.{Platform}
use zephyr_project.Prelude.{List, if_elim, some, suc, zero, ℕ, Option, [], ltb, none, ◌+◌}
use zephyr_project.Prelude.Int.{ℤ, is_neg}
use Prim.{tt}
use zephyr_project.App.Join.{join_loop}
use zephyr_project.App.System.Sends.{Sends, create-Deliveries, emit-Deliveries, set_app-Deliveries}

-- A property of the value, if there is one.
abbrev pub WhenSome : {A : Type 0} → (A → Type 0) → Option A → Type 0
WhenSome P none = Unit
WhenSome P (some x) = P x

when_mapped :
    {A B : Type 0} (P : B → Type 0) (Q : A → Type 0) (f : A → B) (o : Option A)
    → ((x : A) → Q x → P (f x))
    → WhenSome Q o
    → WhenSome P (elim o [ none ↦ none | some x ↦ some (f x) ])
when_mapped P Q f none h k = tt
when_mapped P Q f (some x) h k = h x k

when_any : {A : Type 0} (o : Option A) → WhenSome (λ _. Unit) o
when_any none = tt
when_any (some x) = tt

module _ {p : Platform} {n : Nvs} where
  pub join_lorawan-Sends :
      (join : ℕ → ℕ → ℤ) (fuel : ℕ) (w : World (app_env p n))
      → WhenSome
          (λ (r : DispatchResult × List ℕ × World (app_env p n)). Sends w (r.0, r.2))
          (join_lorawan_msg_handler join fuel w)
  unfolding join_lorawan_msg_handler
  join_lorawan-Sends join fuel w =
      let o = join_loop n join fuel 0 w.app.dev_nonce [] w.app.store in
      when_mapped (λ (r : DispatchResult × List ℕ × World (app_env p n)). Sends w (r.0, r.2))
        (λ _. Unit)
        (λ (x : List ℕ × ℕ × n.Store). (
          dispatch_ok,
          x.0,
          (sysmsg_create_and_send msg_id_control_task msg_id_sensor_task smc_sensor_measure
              (set_app (record (w.app) { dev_nonce = x.1; store = x.2 }) w)).1,
        ))
        o (λ x _. (next (set_app-Deliveries _ w) (create-Deliveries _ _ _ _), λ e. cc)) (when_any o)

  after :
      {u v : World (app_env p n)} (o : Option (World (app_env p n)))
      → Deliveries u v
      → WhenSome (Deliveries v) o
      → WhenSome (Deliveries u) o
  after none g h = tt
  after (some w) g h = next g h

  send_loop-Deliveries :
      (send : ℕ → List ℕ → ℤ) (fuel i retries : ℕ) (w : World (app_env p n))
      → WhenSome (Deliveries w) (send_loop send fuel i retries w)
  unfolding send_loop
  send_loop-Deliveries send zero i retries w = tt
  send_loop-Deliveries send (suc fuel) i retries w =
      let frame = c_string w.app.tx_data in
      let w' = emit (lorawan_sent frame) w in
      let first : Deliveries w w' = emit-Deliveries (lorawan_sent frame) w in
      let later : (r : ℕ) → WhenSome (Deliveries w) (send_loop send fuel (suc i) r w') =
        λ r. after _ first (send_loop-Deliveries send fuel (suc i) r w') in
      if_elim (WhenSome (Deliveries w)) (is_again (send i frame)) (λ _. later retries)
        (λ _.
          if_elim (WhenSome (Deliveries w)) (is_neg (send i frame))
            (λ _.
              if_elim (WhenSome (Deliveries w)) (ltb 5 retries) (λ _. first)
                (λ _. later (retries + 1)))
            (λ _. first))

  pub send_data_lorawan-Sends :
      (send : ℕ → List ℕ → ℤ) (fuel : ℕ) (w : World (app_env p n))
      → WhenSome (Sends w) (send_data_lorawan_msg_handler send fuel w)
  unfolding send_data_lorawan_msg_handler clear_tx_data
  send_data_lorawan-Sends send fuel w =
      when_mapped (Sends w) (Deliveries w)
        (λ (v : World (app_env p n)). (dispatch_ok, clear_tx_data send v))
        (send_loop send fuel 0 0 (emit relay_toggled w))
        (λ v d. (next d (set_app-Deliveries _ v), λ e. cc))
        (after _ (emit-Deliveries relay_toggled w)
          (send_loop-Deliveries send fuel 0 0 (emit relay_toggled w)))
