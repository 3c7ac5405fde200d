-- ===== src/App/Uplink/Frame.antt =====
-- A flow event becomes a frame.
use zephyr_project.App.Uplink.{
  c_string, decimal_d, snprintf_into, flow_prefix, sensor_event_msg_handler,
}
use zephyr_project.Config.Decimal.{HasNoNul}
use zephyr_project.Config.Decimal.RoundTrip.{length-decimal, decimal-HasNoNul, HasNoNul-append}
use zephyr_project.Config.SysCfg.{copy_over, Nvs}
use zephyr_project.Prelude.{
  ==_ne, List, [], ap, arith, if_elim, length, ltb, refl, take-all, ℕ, ◌++◌, ◌-◌, ◌<◌, ◌^◌, ◌∷◌,
  ◌∷◌, ◌≡◌, ◌≤◌, if◌then◌else◌, not, Bool-cases, inl, inr, true, ◌∙◌, false,
}
use zephyr_project.App.Posting.{sensor_event_water_flow, set_app-Posts}
use zephyr_project.App.State.{app_env, AppState, set_app}
use zephyr_project.Framework.Effect.{Unmoved}
use zephyr_project.Framework.SysCore.Sending.{queue_at}
use zephyr_project.Framework.SysMsg.Delivery.{plain_msg, sysmsg_create_and_send-Creates}
use zephyr_project.Framework.Types.{msg_id_control_task, smc_send_data_lorawan}
use zephyr_project.Framework.World.{World, get_msg}
use zephyr_project.Platform.{Platform}
use zephyr_project.Framework.SysMsg.Aside.{sysmsg_create_and_send-app}
use Prim.{tt}
use zephyr_project.Framework.SysCore.NewBuffer.{Creates-Posts, Posts}

decimal_d-HasNoNul : (n : ℕ) → HasNoNul (decimal_d n)
unfolding decimal_d
decimal_d-HasNoNul n =
    if_elim HasNoNul (ltb n (2 ^ 31)) (λ lt. decimal-HasNoNul n)
      (λ ge. (omega arith, decimal-HasNoNul (2 ^ 32 - n)))

flow_prefix-HasNoNul : HasNoNul flow_prefix
flow_prefix-HasNoNul =
    (omega arith, (omega arith, (omega arith, (omega arith, (omega arith, (omega arith, tt))))))

length-decimal_d : (n : ℕ) → length (decimal_d n) ≤ 11
unfolding decimal_d
length-decimal_d n = ground (arith, length-decimal n, length-decimal (2 ^ 32 - n))

c_string-append : (s z : List ℕ) → HasNoNul s → c_string (s ++ 0 ∷ z) ≡ s
unfolding c_string
c_string-append [] z h = refl
c_string-append (c ∷ s) z (ne, h) = rw (==_ne c 0 ne, c_string-append s z h) refl

-- What stands behind the string that was copied.
copy_over-append :
    (b s : List ℕ) → length s < length b → (z : List ℕ) × (copy_over b (s ++ 0 ∷ []) ≡ s ++ 0 ∷ z)
copy_over-append [] s lt = absurd (omega arith)
copy_over-append (x ∷ b) [] lt = (copy_over b [], refl)
copy_over-append (x ∷ b) (c ∷ s) lt =
    let (z, e) = copy_over-append b s (omega arith) in (z, ap (◌∷◌ c) e)

-- A string without a NUL that fits is what the buffer holds after `snprintf`.
pub c_string-snprintf_into :
    (b s : List ℕ) → HasNoNul s → length s < length b → c_string (snprintf_into b s) ≡ s
unfolding snprintf_into
c_string-snprintf_into b s h lt =
    let (z, e) = copy_over-append b s lt in
    rw (take-all (length b - 1) s (omega arith), e) (c_string-append s z h)

module _ {p : Platform} {n : Nvs} where
  -- What `sensor_event_msg_handler` leaves after a flow event of `v`: the frame, the flag, and the
  -- message that it sends or not.
  pub record Shown (w w' : World (app_env p n)) (v : ℕ) : Type 0 where
    pub frame : c_string w'.app.tx_data ≡ flow_prefix ++ decimal_d v
    pub flag : w'.app.b_send_msg_lorawan ≡ not w.app.b_send_msg_lorawan
    pub sent :
        if w.app.b_send_msg_lorawan
        then Unmoved w w'
        else Posts w
            (queue_at w msg_id_control_task)
            (plain_msg smc_send_data_lorawan msg_id_control_task msg_id_control_task)
            w'

  -- A flow event with a `tx_data` of 51 bytes, as it is declared: the string in `tx_data` becomes
  -- "flow: " and the value, the flag is toggled, and when it is true after that, a new message
  -- SMC_SEND_DATA_LORAWAN stands at the end of the control task's queue or no queue and no block
  -- changed; when it is false, no queue and no block changed.
  pub sensor_event_msg_handler-Shown :
      (p_msg v : ℕ) (rest : List ℕ) (w : World (app_env p n))
      → (get_msg w p_msg).payload ≡ sensor_event_water_flow ∷ v ∷ rest
      → length w.app.tx_data ≡ 51
      → Shown w (sensor_event_msg_handler p_msg w).1 v
  unfolding sensor_event_msg_handler
  sensor_event_msg_handler-Shown p_msg v rest w event size =
      let text = flow_prefix ++ decimal_d v in
      let fits : length text < length w.app.tx_data = omega (arith, length-decimal_d v) in
      let frame : c_string (snprintf_into w.app.tx_data text) ≡ text =
        c_string-snprintf_into w.app.tx_data text
          (HasNoNul-append flow_prefix (decimal_d v) flow_prefix-HasNoNul (decimal_d-HasNoNul v))
          fits in
      elim (Bool-cases w.app.b_send_msg_lorawan) [
        | inl on ↦
            rw (event, on)
              (record {
                frame = frame;
                flag = refl;
                sent = record {
                  held = λ a. refl;
                  contents = λ a. refl;
                  kept = λ a. inr refl;
                  setup = (refl, refl);
                };
              })
        | inr off ↦
            let a = record (w.app) {
              tx_data = snprintf_into w.app.tx_data text;
              b_send_msg_lorawan = true;
            } in
            let kept =
              sysmsg_create_and_send-app msg_id_control_task msg_id_control_task
                smc_send_data_lorawan (set_app a w) in
            rw (event, off)
              (record {
                frame = ap (λ (x : AppState n). c_string x.tx_data) kept ∙ frame;
                flag = ap (λ (x : AppState n). x.b_send_msg_lorawan) kept;
                sent =
                    (set_app-Posts a (set_app (record (w.app) { b_send_msg_lorawan = false }) w) _ _
                      _
                      (Creates-Posts (set_app a w) _ _ _ (
                        sysmsg_create_and_send-Creates msg_id_control_task msg_id_control_task
                          smc_send_data_lorawan (set_app a w))));
              })
      ]
