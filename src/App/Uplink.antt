-- ===== src/App/Uplink.antt =====
-- `sensor_event_msg_handler` and `send_data_lorawan_msg_handler` of app/src/control_task.c. The radio
-- is a parameter: `send i frame` is what the (i+1)-th `lorawan_send` returns.
pub mod Retry
pub mod Frame
use zephyr_project.App.Posting.{sensor_event_water_flow}
use zephyr_project.App.State.{app_env, emit, lorawan_sent, relay_toggled, set_app}
use zephyr_project.Config.Decimal.{decimal}
use zephyr_project.Config.SysCfg.{Nvs, copy_over}
use zephyr_project.Framework.SysMsg.{sysmsg_create_and_send}
use zephyr_project.Framework.Types.{
  DispatchResult, dispatch_ok, msg_id_control_task, smc_send_data_lorawan,
}
use zephyr_project.Framework.World.{World, get_msg}
use zephyr_project.Platform.{Platform}
use zephyr_project.Prelude.{
  Bool, List, Option, [], false, get_or, if◌then◌else◌, length, ltb, none, not, replicate, some,
  suc, take, zero, ℕ, ◌++◌, ◌+◌, ◌-◌, ◌==◌, ◌^◌, ◌∷◌,
}
use zephyr_project.Prelude.Int.{is_neg, negsuc, pos, ℤ}

-- "flow: "
abbrev pub flow_prefix : List ℕ
flow_prefix = b'f' ∷ b'l' ∷ b'o' ∷ b'w' ∷ b':' ∷ b' ' ∷ []

-- "%d" of a 32-bit word.
unfoldable pub decimal_d : ℕ → List ℕ
decimal_d n = if ltb n (2 ^ 31) then decimal n else b'-' ∷ decimal (2 ^ 32 - n)

-- `snprintf` into a buffer: the text that fits, its NUL, and what the buffer held behind it.
unfoldable pub snprintf_into : List ℕ → List ℕ → List ℕ
snprintf_into buffer text = copy_over buffer (take (length buffer - 1) text ++ 0 ∷ [])

-- The string in a buffer.
unfoldable pub c_string : List ℕ → List ℕ
c_string [] = []
c_string (c ∷ s) = let rest = c_string s in if c == 0 then [] else c ∷ rest

-- -EAGAIN
abbrev pub is_again : ℤ → Bool
is_again (pos n) = false
is_again (negsuc n) = n == 10

module _ {p : Platform} {n : Nvs} where
  unfoldable pub sensor_event_msg_handler :
      ℕ → World (app_env p n) → DispatchResult × World (app_env p n)
  sensor_event_msg_handler p_msg w =
      let words = (get_msg w p_msg).payload in
      let a = w.app in
      let text = flow_prefix ++ decimal_d (get_or words 1 0) in
      let shown =
        set_app
          (record a {
            tx_data = snprintf_into a.tx_data text;
            b_send_msg_lorawan = not a.b_send_msg_lorawan;
          })
          w in
      let w' = if get_or words 0 0 == sensor_event_water_flow then shown else w in
      let sent =
        sysmsg_create_and_send msg_id_control_task msg_id_control_task smc_send_data_lorawan w' in
      (dispatch_ok, if (w'.app).b_send_msg_lorawan then sent.1 else w')

  module _ (send : ℕ → List ℕ → ℤ) where
    -- The `while (true)`, with fuel: none when the fuel runs out.
    unfoldable pub send_loop : ℕ → ℕ → ℕ → World (app_env p n) → Option (World (app_env p n))
    send_loop zero i retries w = none
    send_loop (suc fuel) i retries w =
        let frame = c_string w.app.tx_data in
        let ret = send i frame in
        let w' = emit (lorawan_sent frame) w in
        let again = send_loop fuel (suc i) retries w' in
        let retry = send_loop fuel (suc i) (retries + 1) w' in
        if is_again ret
        then again
        else if is_neg ret
        then (if ltb 5 retries then some w' else retry)
        else some w'

    unfoldable pub clear_tx_data : World (app_env p n) → World (app_env p n)
    clear_tx_data w = set_app (record (w.app) { tx_data = replicate 51 0 }) w

    unfoldable pub send_data_lorawan_msg_handler :
        ℕ → World (app_env p n) → Option (DispatchResult × World (app_env p n))
    send_data_lorawan_msg_handler fuel w = elim (send_loop fuel 0 0 (emit relay_toggled w)) [
      | none ↦ none
      | some w' ↦ some (dispatch_ok, clear_tx_data w')
    ]
