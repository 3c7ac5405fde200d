-- ===== src/App/Join.antt =====
-- `join_lorawan_msg_handler` of app/src/control_task.c.
use zephyr_project.Config.DevNonce.{inc_dev_nonce, get_dev_nonce, get_dev_nonce-inc_dev_nonce}
use zephyr_project.Config.SysCfg.{Nvs, syscfg_set}
use zephyr_project.Prelude.{
  List, Option, arith, false, if◌then◌else◌, none, some, suc, true, zero, ℕ, ◌%◌, ◌+◌, ◌<◌, ◌^◌,
  ◌∷◌, ◌≡◌, ◌≤◌, [], refl, ◌∙◌,
}
use zephyr_project.Prelude.Int.{is_neg, is_zero, negsuc, ℤ, pos}
use zephyr_project.Config.Decimal.{snprintf_u}
use zephyr_project.Config.Hash.{dev_nonce_key}

-- -ETIMEDOUT
abbrev pub etimedout : ℤ
etimedout = negsuc 115

-- What an attempt's result becomes: `if ((ret = -ETIMEDOUT))` overwrites every error code.
abbrev pub join_status : ℤ → ℤ
join_status ret = if is_neg ret then etimedout else ret

status-zero : (z : ℤ) → is_zero (join_status z) ≡ is_zero z
status-zero (pos n) = refl
status-zero (negsuc n) = refl

zero-shift : (i : ℕ) → i + 0 ≡ i
zero-shift i = omega arith

zero_add : (k : ℕ) → 0 + k ≡ k
zero_add k = omega arith

suc-shift : (i k : ℕ) → suc i + k ≡ i + suc k
suc-shift i k = omega arith

-- `join i nonce` is what the (i+1)-th `lorawan_join` returns, asked with that nonce. The result has
-- the nonces asked with, newest first, the nonce afterwards and the settings. None when the fuel
-- runs out.
module _ (n : Nvs) (join : ℕ → ℕ → ℤ) where
  unfoldable pub join_loop : ℕ → ℕ → ℕ → List ℕ → n.Store → Option (List ℕ × ℕ × n.Store)
  join_loop zero i nonce asked s = none
  join_loop (suc fuel) i nonce asked s =
      let next = inc_dev_nonce n nonce s in
      let again = join_loop fuel (suc i) next.0 (nonce ∷ asked) next.1 in
      if is_zero (join_status (join i nonce)) then some (nonce ∷ asked, next.0, next.1) else again

  -- The nonces of `k` attempts from `nonce` on, newest first, before those in `asked`.
  abbrev pub nonces : ℕ → ℕ → List ℕ → List ℕ
  nonces zero nonce asked = asked
  nonces (suc k) nonce asked = nonces k ((nonce + 1) % 2 ^ 16) (nonce ∷ asked)

  -- `k` increments of the nonce, each written to the settings.
  abbrev pub increments : ℕ → ℕ → n.Store → ℕ × n.Store
  increments zero nonce s = (nonce, s)
  increments (suc k) nonce s = increments k (inc_dev_nonce n nonce s).0 (inc_dev_nonce n nonce s).1

  join_loop-nonces :
      (fuel i k nonce : ℕ) (asked : List ℕ) (s : n.Store)
      → k < fuel
      → ((j m : ℕ) → i ≤ j → j < i + k → is_zero (join j m) ≡ false)
      → ((m : ℕ) → is_zero (join (i + k) m) ≡ true)
      → join_loop fuel i nonce asked s
        ≡ some (
          nonces (suc k) nonce asked,
          (increments (suc k) nonce s).0,
          (increments (suc k) nonce s).1,
        )
  unfolding join_loop inc_dev_nonce
  join_loop-nonces zero i k nonce asked s lt fails good = absurd (omega arith)
  join_loop-nonces (suc fuel) i zero nonce asked s lt fails good =
      rw (status-zero (join i nonce), here) refl
    where
      here : is_zero (join i nonce) ≡ true
      here = rw (← zero-shift i) (good nonce)
  join_loop-nonces (suc fuel) i (suc k) nonce asked s lt fails good =
      rw (status-zero (join i nonce), fails i nonce (omega arith) (omega arith))
        (join_loop-nonces fuel (suc i) k _ (nonce ∷ asked) _ (omega arith)
          (λ j m a b. fails j m (omega arith) (omega arith)) (λ m. rw (suc-shift i k) (good m)))

  increments_nonce :
      (k nonce : ℕ) (s : n.Store) → (increments (suc k) nonce s).0 ≡ (nonce + suc k) % 2 ^ 16
  unfolding inc_dev_nonce
  increments_nonce zero nonce s = refl
  increments_nonce (suc k) nonce s = increments_nonce k ((nonce + 1) % 2 ^ 16) _ ∙ omega arith

  get_dev_nonce-increments :
      (k nonce : ℕ) (s : n.Store)
      → ((m : ℕ) (t : n.Store) → (syscfg_set n dev_nonce_key (snprintf_u 10 m) t).0 ≡ pos 0)
      → get_dev_nonce n (increments (suc k) nonce s).1 ≡ (increments (suc k) nonce s).0
  unfolding inc_dev_nonce
  get_dev_nonce-increments zero nonce s writes =
      get_dev_nonce-inc_dev_nonce n nonce s (writes ((nonce + 1) % 2 ^ 16) s)
  get_dev_nonce-increments (suc k) nonce s writes =
      get_dev_nonce-increments k ((nonce + 1) % 2 ^ 16) _ writes

  -- When the first attempt to succeed is the (k+1)-th, the loop ends after k+1 attempts for any fuel
  -- above k, asks with consecutive nonces from the stored one on, and leaves the next nonce, which
  -- the settings hold when every write succeeds.
  pub join_loop_succeeds :
      (fuel k nonce : ℕ) (s : n.Store)
      → k < fuel
      → ((j m : ℕ) → j < k → is_zero (join j m) ≡ false)
      → ((m : ℕ) → is_zero (join k m) ≡ true)
      → ((m : ℕ) (t : n.Store) → (syscfg_set n dev_nonce_key (snprintf_u 10 m) t).0 ≡ pos 0)
      → (s' : n.Store) × (join_loop fuel 0 nonce [] s
          ≡ some (nonces (suc k) nonce [], (nonce + suc k) % 2 ^ 16, s'))
        × (get_dev_nonce n s' ≡ (nonce + suc k) % 2 ^ 16)
  join_loop_succeeds fuel k nonce s lt fails good writes =
      let last = increments (suc k) nonce s in
      let new : last.0 ≡ (nonce + suc k) % 2 ^ 16 = increments_nonce k nonce s in
      (
        last.1,
        join_loop-nonces fuel 0 k nonce [] s lt (λ j m _ b. fails j m (omega arith))
              (λ m. rw (zero_add k) (good m))
            ∙ rw new refl,
        get_dev_nonce-increments k nonce s writes ∙ new,
      )
