-- ===== src/Config/DevNonce.antt =====
-- The LoRaWAN device nonce: `get_dev_nonce` and `inc_dev_nonce` of app/src/control_task.c.
use zephyr_project.Config.Decimal.{atoi, decimal, snprintf_u}
use zephyr_project.Config.Decimal.RoundTrip.{
  length-decimal_u16, atoi-decimal, copy_over-zeros, decimal-ne-nil,
}
use zephyr_project.Config.Hash.{dev_nonce_key, get_key_id, seed}
use zephyr_project.Config.SysCfg.{Nvs, syscfg_get, syscfg_set, copy_over}
use zephyr_project.Prelude.{
  arith, length, replicate, take, take-all, zero, ℕ, ◌%◌, ◌+◌, ◌^◌, ◌≡◌, ◌≤◌, ==_refl, List, refl,
  ◌-◌, ◌∙◌,
}
use zephyr_project.Prelude.Int.{negsuc, pos, ℤ}
use zephyr_project.Config.SysCfg.Store.{syscfg_get-set}

-- `ret == -1`, then the string as a number.
nonce_of : ℤ × List ℕ → ℕ
nonce_of (negsuc zero, value) = 0
nonce_of (_, value) = atoi value % 2 ^ 16

module _ (n : Nvs) where
  unfoldable pub get_dev_nonce : n.Store → ℕ
  unfolding nonce_of
  get_dev_nonce s = nonce_of (syscfg_get n dev_nonce_key (replicate 10 0) s)

  unfoldable pub inc_dev_nonce : ℕ → n.Store → ℕ × n.Store
  inc_dev_nonce nonce s =
      let nonce' = (nonce + 1) % 2 ^ 16 in
      (nonce', (syscfg_set n dev_nonce_key (snprintf_u 10 nonce') s).1)

  -- The nonce survives a reset: when the write of the incremented nonce reports no error, it is what
  -- `get_dev_nonce` reads afterwards, whatever was stored before.
  pub get_dev_nonce-inc_dev_nonce :
      (nonce : ℕ) (s : n.Store)
      → (syscfg_set n dev_nonce_key (snprintf_u 10 ((nonce + 1) % 2 ^ 16)) s).0 ≡ pos 0
      → get_dev_nonce (inc_dev_nonce nonce s).1 ≡ (nonce + 1) % 2 ^ 16
  unfolding get_dev_nonce inc_dev_nonce snprintf_u
  get_dev_nonce-inc_dev_nonce nonce s wrote =
      let m = (nonce + 1) % 2 ^ 16 in
      let short : length (decimal m) ≤ 5 = length-decimal_u16 m (omega arith) in
      let whole : take 9 (decimal m) ≡ decimal m = take-all 9 (decimal m) (omega arith) in
      let wrote' : (syscfg_set n dev_nonce_key (decimal m) s).0 ≡ pos 0 = rw whole at wrote in
      let value = copy_over (replicate 10 0) (decimal m) in
      let stored = (syscfg_set n dev_nonce_key (decimal m) s).1 in
      let read : syscfg_get n dev_nonce_key (replicate 10 0) stored ≡ (pos 0, value) =
        syscfg_get-set n dev_nonce_key dev_nonce_key (decimal m) (replicate 10 0) s wrote'
          (decimal-ne-nil m) (omega arith)
        ∙ rw (==_refl (get_key_id dev_nonce_key seed)) refl in
      let back : atoi value ≡ m =
        rw (copy_over-zeros 10 (decimal m) (omega arith))
          (atoi-decimal m (10 - length (decimal m)) (omega arith)) in
      rw (whole, read, back) (omega arith)
