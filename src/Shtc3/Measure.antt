-- ===== src/Shtc3/Measure.antt =====
-- The reads that `shtc3_GetTempAndHumidity` makes, and the one that it takes.
use zephyr_project.Prelude.{
  false, suc, true, zero, ℕ, ◌+◌, ◌<◌, ◌≡◌, ◌≤◌, Bool-cases, ap, arith, inl, inr, refl, ◌==◌,
  ==_iff, [], if◌then◌else◌, sym, ◌*◌, ◌∙◌, ◌∷◌, ◌≢◌, ◌⊎◌,
}
use zephyr_project.Prelude.Int.{is_zero, ℤ}
use zephyr_project.Shtc3.{
  Reading, Values, read_loop, shtc3_get_temp_and_humidity, shtc3_no_error, shtc3_no_retries,
  store_checked, shtc3_i2c_error, crc_bytes, shtc3_checkcrc,
}
use Prim.Native.Nat.{bit_xor}
use zephyr_project.Shtc3.Crc.{crc_bytes-remainder, remainder}

read_loop-fails :
    (left k : ℕ) (bus : ℕ → ℤ × Values)
    → ((i : ℕ) → is_zero (bus i).0 ≡ false)
    → is_zero (read_loop left bus k).0 ≡ false
unfolding read_loop
read_loop-fails zero k bus h = h k
read_loop-fails (suc left) k bus h = rw (h k) (read_loop-fails left (suc k) bus h)

read_loop-first :
    (left k j : ℕ) (bus : ℕ → ℤ × Values)
    → k ≤ j
    → j ≤ k + left
    → ((i : ℕ) → k ≤ i → i < j → is_zero (bus i).0 ≡ false)
    → is_zero (bus j).0 ≡ true
    → read_loop left bus k ≡ bus j
unfolding read_loop
read_loop-first zero k j bus lo hi fails good = ap bus (omega arith)
read_loop-first (suc left) k j bus lo hi fails good = elim (Bool-cases (k == j)) [
  | inl now ↦ let same : k ≡ j = ground arith in rw same (rw good refl)
  | inr later ↦ rw (fails k (omega arith) (ground arith)) (
      read_loop-first left (suc k) j bus (ground arith) (omega arith)
        (λ i a b. fails i (omega arith) b) good)
]

get_temp_and_humidity-store_checked :
    (j : ℕ) (bus : ℕ → ℤ × Values) (r : Reading)
    → j < shtc3_no_retries
    → ((i : ℕ) → i < j → is_zero (bus i).0 ≡ false)
    → is_zero (bus j).0 ≡ true
    → shtc3_get_temp_and_humidity bus r ≡ (shtc3_no_error, store_checked (bus j).1 r)
unfolding shtc3_get_temp_and_humidity
get_temp_and_humidity-store_checked j bus r lt fails good =
    rw (read_loop-first 99 0 j bus (omega arith) (omega arith) (λ i _ b. fails i b) good)
      (rw good refl)

-- What the data sheet calls the checksum of two bytes: what two divisions by x^8 + x^5 + x^4 + 1 leave.
abbrev pub checksum : ℕ → ℕ → ℕ
checksum b₀ b₁ = remainder 7 (bit_xor (remainder 7 (bit_xor 0xff b₀ * 256)) b₁ * 256)

-- The word of the bytes `b₀` and `b₁` where `c` is their checksum, and the old one where it is not.
abbrev pub Stored : ℕ → ℕ → ℕ → ℕ → ℕ → Type 0
Stored b₀ b₁ c old word =
    ((checksum b₀ b₁ ≡ c) × (word ≡ b₀ * 256 + b₁)) ⊎ ((checksum b₀ b₁ ≢ c) × (word ≡ old))

word_where_passed :
    (b₀ b₁ c old : ℕ)
    → b₀ < 256
    → b₁ < 256
    → Stored b₀ b₁ c old
        (if shtc3_checkcrc (b₀ ∷ b₁ ∷ []) c == shtc3_no_error then b₀ * 256 + b₁ else old)
unfolding shtc3_checkcrc
word_where_passed b₀ b₁ c old h₀ h₁ =
    let e = crc_bytes-remainder b₀ b₁ h₀ h₁ in
    elim (Bool-cases (crc_bytes (b₀ ∷ b₁ ∷ []) 0xff == c)) [
      | inl same ↦ inl (sym e ∙ (==_iff _ _).0 same, rw same refl)
      | inr differ ↦ inr (λ h. ground (arith, e, h), rw differ refl)
    ]

-- When the first read to succeed is one of the first hundred, and it gave bytes: the status is 0, and
-- each of the two words is stored, high byte first, where its checksum is right by the polynomial of
-- the data sheet, and is as it was where it is not, also when neither checksum is right.
pub shtc3_get_temp_and_humidity-Stored :
    (j : ℕ) (bus : ℕ → ℤ × Values) (r : Reading)
    → j < shtc3_no_retries
    → ((i : ℕ) → i < j → is_zero (bus i).0 ≡ false)
    → is_zero (bus j).0 ≡ true
    → (bus j).1.t_high < 256
    → (bus j).1.t_low < 256
    → (bus j).1.h_high < 256
    → (bus j).1.h_low < 256
    → let v = (bus j).1 in
      let got = shtc3_get_temp_and_humidity bus r in
      (got.0 ≡ shtc3_no_error)
      × Stored v.t_high v.t_low v.temperature_crc r.temperature got.1.temperature
      × Stored v.h_high v.h_low v.humidity_crc r.humidity got.1.humidity
unfolding store_checked
shtc3_get_temp_and_humidity-Stored j bus r lt fails good t₀ t₁ h₀ h₁ =
    let v = (bus j).1 in
    rw (get_temp_and_humidity-store_checked j bus r lt fails good) (
      refl,
      word_where_passed v.t_high v.t_low v.temperature_crc r.temperature t₀ t₁,
      word_where_passed v.h_high v.h_low v.humidity_crc r.humidity h₀ h₁,
    )

-- When every read fails, the status is the bus error's and nothing is stored.
pub get_temp_and_humidity_fails :
    (bus : ℕ → ℤ × Values) (r : Reading)
    → ((i : ℕ) → is_zero (bus i).0 ≡ false)
    → shtc3_get_temp_and_humidity bus r ≡ (shtc3_i2c_error, r)
unfolding shtc3_get_temp_and_humidity
get_temp_and_humidity_fails bus r fails = rw (read_loop-fails 99 0 bus fails)
