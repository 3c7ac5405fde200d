-- ===== src/Config/Decimal/RoundTrip.antt =====
-- A number that is printed and then read.
use zephyr_project.Prelude.{
  Bool-cases, List, [], arith, inl, inr, length, length-append, ltb, suc, zero, ℕ, ◌%◌, ◌++◌, ◌+◌,
  ◌/◌, ◌<◌, ◌^◌, ◌∷◌, ◌≡◌, ◌≤◌, append_assoc, refl, replicate, ◌-◌, ◌∙◌, ◌≢◌, ap, if_elim,
}
use zephyr_project.Config.Decimal.{digits, scan_digits, atoi, decimal, HasNoNul}
use zephyr_project.Config.SysCfg.{copy_over}
use Prim.{tt}

zero_of : (n : ℕ) → n < 1 → n ≡ 0
zero_of n lt = omega arith

scan_digits-append :
    (fuel n : ℕ) (s : List ℕ) → n < 10 ^ fuel → scan_digits 0 (digits fuel n ++ s) ≡ scan_digits n s
unfolding digits scan_digits
scan_digits-append zero n s lt = rw (zero_of n lt)
scan_digits-append (suc fuel) n s lt = elim (Bool-cases (ltb n 10)) [
  | inl small ↦ rw small (ground arith)
  | inr large ↦ rw large (
      ground (
        arith,
        scan_digits-append fuel (n / 10) ((b'0' + n % 10) ∷ s),
        append_assoc (digits fuel (n / 10)) ((b'0' + n % 10) ∷ []) s,
      ))
]

-- The first digit, which is neither a space nor a sign.
digits-cons :
    (fuel n : ℕ) → (c : ℕ) × (s : List ℕ) × (digits (suc fuel) n ≡ c ∷ s) × (b'0' ≤ c) × (c ≤ b'9')
unfolding digits
digits-cons zero n = elim (Bool-cases (ltb n 10)) [
  | inl small ↦ (b'0' + n, [], rw small, omega arith, ground arith)
  | inr large ↦ (b'0' + n % 10, [], rw large, omega arith, omega arith)
]
digits-cons (suc fuel) n = elim (Bool-cases (ltb n 10)) [
  | inl small ↦ (b'0' + n, [], rw small, omega arith, ground arith)
  | inr large ↦
      let (c, s, e, lo, hi) = digits-cons fuel (n / 10) in
      (c, s ++ (b'0' + n % 10) ∷ [], rw (large, e) refl, lo, hi)
]

length-digits : (fuel n : ℕ) → length (digits fuel n) ≤ fuel
unfolding digits
length-digits zero n = omega arith
length-digits (suc fuel) n = ground (
  arith,
  length-digits fuel (n / 10),
  length-append (digits fuel (n / 10)) ((b'0' + n % 10) ∷ []),
)

scan_digits-zeros : (n k : ℕ) → scan_digits n (replicate k 0) ≡ n
unfolding scan_digits
scan_digits-zeros n zero = refl
scan_digits-zeros n (suc k) = refl

atoi-digit :
    (c : ℕ) (s : List ℕ) → b'0' ≤ c → c ≤ b'9' → atoi (c ∷ s) ≡ scan_digits 0 (c ∷ s) % 2 ^ 32
unfolding atoi
atoi-digit c s lo hi = ground arith

-- `atoi` reads back what `snprintf` printed of a 32-bit number, zeros behind it included.
pub atoi-decimal : (n k : ℕ) → n < 2 ^ 32 → atoi (decimal n ++ replicate k 0) ≡ n
unfolding decimal
atoi-decimal n k lt =
    let (c, s, e, lo, hi) = digits-cons 9 n in
    let head : atoi (decimal n ++ replicate k 0)
        ≡ scan_digits 0 (digits 10 n ++ replicate k 0) % 2 ^ 32 =
      rw e (atoi-digit c (s ++ replicate k 0) lo hi) in
    let scanned : scan_digits 0 (digits 10 n ++ replicate k 0) ≡ n =
      scan_digits-append 10 n (replicate k 0) (omega arith) ∙ scan_digits-zeros n k in
    head ∙ ap (λ (x : ℕ). x % 2 ^ 32) scanned ∙ omega arith

pub length-decimal : (n : ℕ) → length (decimal n) ≤ 10
unfolding decimal
length-decimal n = length-digits 10 n

length-digits_lt : (fuel k n : ℕ) → n < 10 ^ suc k → length (digits fuel n) ≤ suc k
unfolding digits
length-digits_lt zero k n lt = omega arith
length-digits_lt (suc fuel) zero n lt = ground arith
length-digits_lt (suc fuel) (suc k) n lt = ground (
  arith,
  length-digits_lt fuel k (n / 10),
  length-append (digits fuel (n / 10)) ((b'0' + n % 10) ∷ []),
)

-- The value of a uint16_t fits into the ten bytes of the nonce's buffer with its NUL.
pub length-decimal_u16 : (n : ℕ) → n < 2 ^ 16 → length (decimal n) ≤ 5
unfolding decimal
length-decimal_u16 n lt = length-digits_lt 10 4 n (omega arith)

pub decimal-ne-nil : (n : ℕ) → decimal n ≢ []
unfolding decimal
decimal-ne-nil n e = let (c, s, e', lo, hi) = digits-cons 9 n in cc

-- Copying a string over a zeroed buffer that can hold it.
pub copy_over-zeros :
    (k : ℕ) (v : List ℕ)
    → length v ≤ k
    → copy_over (replicate k 0) v ≡ v ++ replicate (k - length v) 0
copy_over-zeros k [] fits = ap (λ (j : ℕ). replicate j 0) (omega arith)
copy_over-zeros zero (c ∷ v) fits = absurd (omega arith)
copy_over-zeros (suc k) (c ∷ v) fits =
    ap (◌∷◌ c)
      (copy_over-zeros k v (omega arith) ∙ ap (λ (j : ℕ). v ++ replicate j 0) (omega arith))

pub HasNoNul-append : (s t : List ℕ) → HasNoNul s → HasNoNul t → HasNoNul (s ++ t)
HasNoNul-append [] t hs ht = ht
HasNoNul-append (c ∷ s) t (ne, hs) ht = (ne, HasNoNul-append s t hs ht)

digits-HasNoNul : (fuel n : ℕ) → HasNoNul (digits fuel n)
unfolding digits
digits-HasNoNul zero n = tt
digits-HasNoNul (suc fuel) n =
    if_elim HasNoNul (ltb n 10) (λ lt. (omega arith, tt))
      (λ ge.
        HasNoNul-append (digits fuel (n / 10)) _ (digits-HasNoNul fuel (n / 10)) (omega arith, tt))

pub decimal-HasNoNul : (n : ℕ) → HasNoNul (decimal n)
unfolding decimal
decimal-HasNoNul n = digits-HasNoNul 10 n
