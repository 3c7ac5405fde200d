-- ===== src/Config/Decimal.antt =====
-- What the application uses of the C library for decimal numbers: `snprintf` with "%u" or "%hu", and
-- `atoi`. A C string is the list of its bytes, with or without what stands behind its NUL.
pub mod RoundTrip
use zephyr_project.Prelude.{
  Bool, List, [], if◌then◌else◌, leb, ltb, refl, suc, take, zero, ℕ, ◌%◌, ◌&&◌, ◌*◌, ◌++◌, ◌+◌, ◌-◌,
  ◌/◌, ◌==◌, ◌^◌, ◌||◌, ◌∷◌, ◌≡◌, ◌≢◌,
}

abbrev pub HasNoNul : List ℕ → Type 0
HasNoNul [] = Unit {0}
HasNoNul (c ∷ d) = (c ≢ 0) × HasNoNul d

-- The digits of a number below 10 ^ fuel.
digits : ℕ → ℕ → List ℕ
digits zero n = []
digits (suc fuel) n =
    let rest = digits fuel (n / 10) in
    if ltb n 10 then (b'0' + n) ∷ [] else rest ++ (b'0' + n % 10) ∷ []

-- A 32-bit number has ten digits at most.
unfoldable pub decimal : ℕ → List ℕ
unfolding digits
decimal n = digits 10 n

-- `snprintf(s, size, "%u", n)`: the string that `s` holds afterwards.
unfoldable pub snprintf_u : ℕ → ℕ → List ℕ
snprintf_u size n = take (size - 1) (decimal n)

is_digit : ℕ → Bool
is_digit c = leb b'0' c && leb c b'9'

-- isspace in the C locale.
is_space : ℕ → Bool
is_space c = c == b' ' || leb 9 c && leb c 13

scan_digits : ℕ → List ℕ → ℕ
unfolding is_digit
scan_digits acc [] = acc
scan_digits acc (c ∷ s) =
    let rest = scan_digits (acc * 10 + (c - b'0')) s in if is_digit c then rest else acc

scan_sign : List ℕ → ℕ
unfolding scan_digits
scan_sign [] = 0
scan_sign (c ∷ s) =
    if c == b'-'
    then (2 ^ 32 - scan_digits 0 s % 2 ^ 32) % 2 ^ 32
    else if c == b'+'
    then scan_digits 0 s % 2 ^ 32
    else scan_digits 0 (c ∷ s) % 2 ^ 32

-- The int as its bit pattern. When the number does not fit an int, C leaves the result undefined: no
-- property is about that case, for which the low 32 bits stand here.
unfoldable pub atoi : List ℕ → ℕ
unfolding is_space scan_sign
atoi [] = 0
atoi (c ∷ s) = let rest = atoi s in if is_space c then rest else scan_sign (c ∷ s)

atoi_samples :
    (atoi (b' ' ∷ b'4' ∷ b'2' ∷ 0 ∷ b'7' ∷ []) ≡ 42)
    × (atoi (b'-' ∷ b'1' ∷ []) ≡ 0xffff_ffff)
    × (atoi (decimal 4_294_967_295) ≡ 4_294_967_295)
unfolding atoi decimal
atoi_samples = (refl, refl, refl)
