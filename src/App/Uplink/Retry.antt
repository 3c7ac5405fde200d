-- ===== src/App/Uplink/Retry.antt =====
-- The sending loop: its end, and the frames that it sends.
use zephyr_project.App.State.{app_env, emit, lorawan_sent, relay_toggled, set_app}
use zephyr_project.App.Uplink.{
  c_string, clear_tx_data, is_again, send_data_lorawan_msg_handler, send_loop,
}
use zephyr_project.Config.SysCfg.{Nvs}
use zephyr_project.Framework.Types.{dispatch_ok}
use zephyr_project.Framework.World.{World}
use zephyr_project.Platform.{Platform}
use zephyr_project.Prelude.{
  Bool-cases, List, arith, false, inl, inr, ltb, refl, some, suc, zero, ℕ, ◌+◌, ◌-◌, ◌<◌, ◌≡◌, ◌≤◌,
  Bool, true, replicate,
}
use zephyr_project.Prelude.Int.{is_neg, ℤ}

stops_before : (i j : ℕ) (b : Bool) → b ≡ true → (j ≤ i → b ≡ false) → i < j
stops_before i j b e h = elim (Bool-cases (ltb i j)) [
  | inl lt ↦ ground arith
  | inr ge ↦ ground (arith, h (ground arith))
]

module _ {p : Platform} {n : Nvs} where
  -- The frame handed to the radio `k` times.
  abbrev pub emit_times : ℕ → List ℕ → World (app_env p n) → World (app_env p n)
  emit_times zero frame w = w
  emit_times (suc k) frame w = emit_times k frame (emit (lorawan_sent frame) w)

  module _ (send : ℕ → List ℕ → ℤ) (j : ℕ) where
    send_loop-emit_times :
        (fuel i retries : ℕ) (w : World (app_env p n))
        → ((k : ℕ) → j ≤ k → is_again (send k (c_string w.app.tx_data)) ≡ false)
        → retries ≤ 6
        → j - i + (7 - retries) ≤ fuel
        → (k : ℕ) × (1 ≤ k)
          × (k ≤ j - i + (7 - retries))
          × (send_loop send fuel i retries w ≡ some (emit_times k (c_string w.app.tx_data) w))
    unfolding send_loop
    send_loop-emit_times zero i retries w h few enough = absurd (omega arith)
    send_loop-emit_times (suc fuel) i retries w h few enough =
        let frame = c_string w.app.tx_data in
        let w' = emit (lorawan_sent frame) w in
        elim (Bool-cases (is_again (send i frame))) [
          | inl a ↦
              let before : i < j = stops_before i j _ a (h i) in
              let (k, lo, hi, e) =
                send_loop-emit_times fuel (suc i) retries w' h few (omega arith) in
              (suc k, omega arith, omega arith, rw a e)
          | inr a ↦ elim (Bool-cases (is_neg (send i frame))) [
            | inr good ↦ (1, omega arith, omega arith, rw (a, good) refl)
            | inl bad ↦ elim (Bool-cases (ltb 5 retries)) [
              | inl last ↦ (1, omega arith, omega arith, rw (a, bad, last) refl)
              | inr more ↦
                  let left : retries < 6 = ground arith in
                  let (k, lo, hi, e) =
                    send_loop-emit_times fuel (suc i) (retries + 1) w' h (omega arith)
                      (omega arith) in
                  (suc k, omega arith, omega arith, rw (a, bad, more) e)
            ]
          ]
        ]

    -- When the radio stops answering -EAGAIN from the attempt `j` on, the handler ends for any fuel
    -- of `j + 7` or more: it toggles the relay, hands the frame in `tx_data` to the radio at least
    -- once and at most `j + 7` times, and leaves 51 zeros in `tx_data`.
    pub send_data_lorawan_msg_handler_ends :
        (fuel : ℕ) (w : World (app_env p n))
        → ((k : ℕ) → j ≤ k → is_again (send k (c_string w.app.tx_data)) ≡ false)
        → j + 7 ≤ fuel
        → (k : ℕ) × (1 ≤ k)
          × (k ≤ j + 7)
          × (send_data_lorawan_msg_handler send fuel w
              ≡ some (
                dispatch_ok,
                let w' = emit_times k (c_string w.app.tx_data) (emit relay_toggled w) in
                    set_app (record (w'.app) { tx_data = replicate 51 0 }) w',
              ))
    unfolding send_data_lorawan_msg_handler clear_tx_data
    send_data_lorawan_msg_handler_ends fuel w h enough =
        let (k, lo, hi, e) =
          send_loop-emit_times fuel 0 0 (emit relay_toggled w) h (omega arith) (omega arith) in
        (k, lo, omega arith, rw (send_data_lorawan_msg_handler, e) refl)
