-- ===== src/App/Downlink.antt =====
-- `dl_callback` of app/src/control_task.c: what a downlink does to the relay.
use zephyr_project.Config.Decimal.RoundTrip.{copy_over-zeros}
use zephyr_project.Config.SysCfg.{copy_over}
use zephyr_project.Prelude.{
  Bool, List, [], arith, false, if◌then◌else◌, length, ltb, refl, replicate, suc, true, zero, ℕ,
  ◌&&◌, ◌++◌, ◌==◌, ◌∷◌, ◌≡◌, ◌≤◌, ◌-◌,
}
use zephyr_project.Config.Decimal.{HasNoNul}

-- `strncmp(a, b, n) == 0` on buffers that hold a NUL or `n` bytes.
unfoldable pub strncmp_eq : ℕ → List ℕ → List ℕ → Bool
strncmp_eq zero a b = true
strncmp_eq (suc n) (x ∷ a) (y ∷ b) =
    let rest = strncmp_eq n a b in if x == y then if x == 0 then true else rest else false
strncmp_eq (suc n) _ _ = false

-- The relay is set to a value, the payload is ignored, or it overruns the ten bytes of `rx_data`.
pub data DownlinkResult : Type 0 where
  relay : ℕ → DownlinkResult
  ignored overrun : DownlinkResult

abbrev pub on_text : List ℕ
on_text = b'o' ∷ b'n' ∷ []

abbrev pub off_text : List ℕ
off_text = b'o' ∷ b'f' ∷ b'f' ∷ []

-- `len` is the payload's length.
unfoldable pub dl_callback : List ℕ → DownlinkResult
unfolding strncmp_eq
dl_callback payload =
    let rx_data = copy_over (replicate 10 0) payload in
    if ltb 10 (length payload)
    then overrun
    else if strncmp_eq (length payload) rx_data (on_text ++ 0 ∷ [])
    then relay 1
    else if strncmp_eq (length payload) rx_data (off_text ++ 0 ∷ [])
    then relay 0
    else ignored

abbrev pub is_prefix : List ℕ → List ℕ → Bool
is_prefix [] s = true
is_prefix (c ∷ d) [] = false
is_prefix (c ∷ d) (x ∷ s) = c == x && is_prefix d s

strncmp_eq-is_prefix :
    (d s zs : List ℕ) → HasNoNul d → strncmp_eq (length d) (d ++ zs) (s ++ 0 ∷ []) ≡ is_prefix d s
unfolding strncmp_eq
strncmp_eq-is_prefix [] s zs h = refl
strncmp_eq-is_prefix (c ∷ d) [] zs h = ground arith
strncmp_eq-is_prefix (c ∷ d) (x ∷ s) zs h = ground (arith, strncmp_eq-is_prefix d s zs h.1)

-- A payload of ten bytes at most and without a NUL sets the relay exactly when it is a prefix of
-- "on" (also the empty payload and "o"), clears it when it is another prefix of "off", and is
-- ignored otherwise.
pub dl_callback-is_prefix :
    (d : List ℕ)
    → length d ≤ 10
    → HasNoNul d
    → dl_callback d
      ≡ (if is_prefix d on_text then relay 1 else if is_prefix d off_text then relay 0 else ignored)
unfolding dl_callback
dl_callback-is_prefix d fits h =
    let over : ltb 10 (length d) ≡ false = ground arith in
    let zs : List ℕ = replicate (10 - length d) 0 in
    rw (over, copy_over-zeros 10 d fits)
      (rw (strncmp_eq-is_prefix d on_text zs h, strncmp_eq-is_prefix d off_text zs h) refl)
