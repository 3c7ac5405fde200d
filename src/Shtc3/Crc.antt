-- ===== src/Shtc3/Crc.antt =====
-- The sensor's checksum beside the remainder of a polynomial division, and the changes that it tells.
use Prim.Native.Nat.{bit_xor}
use zephyr_project.Prelude.{
  ==_iff, Bool, arith, if◌then◌else◌, ltb, refl, suc, true, zero, ℕ, ◌&&◌, ◌*◌, ◌+◌, ◌<◌, ◌==◌, ◌^◌,
  ◌≡◌, [], ◌%◌, ◌/◌, ◌∷◌, ap, sym, ◌∙◌, Bool-cases, false, inl, inr,
}
use zephyr_project.Shtc3.{crc_bits, crc_bytes}

-- A test that every number below `bound` passes.
passes_below : (test : ℕ → Bool) (bound : ℕ) → Bool
passes_below test zero = true
passes_below test (suc bound) =
    let rest = passes_below test bound in if test bound then rest else false

passes-passes_below :
    (test : ℕ → Bool) (bound : ℕ)
    → passes_below test bound ≡ true
    → (i : ℕ) → i < bound
    → test i ≡ true
unfolding passes_below
passes-passes_below test zero all i below = absurd (omega arith)
passes-passes_below test (suc bound) all i below = elim (Bool-cases (i == bound)) [
  | inl here ↦ ground arith
  | inr less ↦ passes-passes_below test bound (ground arith) i (ground arith)
]

-- The remainder of a polynomial over GF(2), with `i + 9` bits, in the division by x^8 + x^5 + x^4 + 1:
-- the divisor is subtracted at each place where the leading bit is set.
unfoldable pub remainder : ℕ → ℕ → ℕ
remainder zero m = if ltb m (2 ^ 8) then m else bit_xor m 0x131
remainder (suc i) m =
    remainder i (if ltb m (2 ^ (suc i + 8)) then m else bit_xor m (0x131 * 2 ^ suc i))

-- The byte's register after eight rounds.
crc_table : passes_below (λ x. crc_bits 8 x == remainder 7 (x * 256)) 256 ≡ true
unfolding passes_below crc_bits remainder
crc_table = refl

crc_bits-remainder : (x : ℕ) → x < 256 → crc_bits 8 x ≡ remainder 7 (x * 256)
crc_bits-remainder x lt = (==_iff _ _).0 (passes-passes_below _ 256 crc_table x lt)

-- The rounds can be run backwards: the lowest bit says whether the polynomial was added.
unbit : ℕ → ℕ
unbit y = if y % 2 == 1 then bit_xor y 0x131 / 2 else y / 2

pub unbits : ℕ → ℕ → ℕ
unbits zero y = y
unbits (suc n) y = unbits n (unbit y)

unbits_table : passes_below (λ x. unbits 8 (crc_bits 8 x) == x && ltb (crc_bits 8 x) 256) 256 ≡ true
unfolding passes_below crc_bits unbit unbits
unbits_table = refl

xor_table :
    passes_below
      (λ a.
        passes_below
          (λ b. bit_xor (bit_xor a b) b == a && ltb (bit_xor a b) 256 && bit_xor a b == bit_xor b a)
          256)
      256
    ≡ true
unfolding passes_below
xor_table = refl

both : (a b : Bool) → (a && b) ≡ true → (a ≡ true) × (b ≡ true)
both a b h = ground arith

test_eq : (a b : ℕ) → (a == b) ≡ true → a ≡ b
test_eq a b h = ground arith

pub crc_bits-byte : (x : ℕ) → x < 256 → (unbits 8 (crc_bits 8 x) ≡ x) × (crc_bits 8 x < 256)
crc_bits-byte x lt =
    let h = both _ _ (passes-passes_below _ 256 unbits_table x lt) in
    (test_eq _ _ h.0, ground arith)

pub xor_byte :
    (a b : ℕ)
    → a < 256
    → b < 256
    → (bit_xor (bit_xor a b) b ≡ a) × (bit_xor a b < 256) × (bit_xor a b ≡ bit_xor b a)
xor_byte a b ha hb =
    let h = both _ _ (passes-passes_below _ 256 (passes-passes_below _ 256 xor_table a ha) b hb) in
    let g = both _ _ h.0 in (test_eq _ _ g.0, ground arith, test_eq _ _ h.1)

pub crc_bits-injective : (x y : ℕ) → x < 256 → y < 256 → crc_bits 8 x ≡ crc_bits 8 y → x ≡ y
crc_bits-injective x y hx hy e =
    sym ((crc_bits-byte x hx).0) ∙ ap (unbits 8) e ∙ (crc_bits-byte y hy).0

pub xor-injective : (a b c : ℕ) → a < 256 → b < 256 → c < 256 → bit_xor a c ≡ bit_xor b c → a ≡ b
xor-injective a b c ha hb hc e =
    sym ((xor_byte a c ha hc).0) ∙ ap (λ (x : ℕ). bit_xor x c) e ∙ (xor_byte b c hb hc).0

-- Changing the byte that enters a round changes the register, as does changing the register.
pub xor-injective_right :
    (a b c : ℕ) → a < 256 → b < 256 → c < 256 → bit_xor c a ≡ bit_xor c b → a ≡ b
xor-injective_right a b c ha hb hc e =
    xor-injective a b c ha hb hc ((xor_byte a c ha hc).2 ∙ e ∙ (xor_byte c b hc hb).2)

-- The register of two bytes is what two such divisions leave.
pub crc_bytes-remainder :
    (b₀ b₁ : ℕ)
    → b₀ < 256
    → b₁ < 256
    → crc_bytes (b₀ ∷ b₁ ∷ []) 0xff
      ≡ remainder 7 (bit_xor (remainder 7 (bit_xor 0xff b₀ * 256)) b₁ * 256)
unfolding crc_bytes
crc_bytes-remainder b₀ b₁ h₀ h₁ =
    let x₀ = xor_byte 0xff b₀ (omega arith) h₀ in
    let r₀ = crc_bits-byte (bit_xor 0xff b₀) x₀.1 in
    let first = crc_bits-remainder (bit_xor 0xff b₀) x₀.1 in
    crc_bits-remainder (bit_xor (crc_bits 8 (bit_xor 0xff b₀)) b₁)
      ((xor_byte (crc_bits 8 (bit_xor 0xff b₀)) b₁ r₀.1 h₁).1)
    ∙ ap (λ (r : ℕ). remainder 7 (bit_xor r b₁ * 256)) first
