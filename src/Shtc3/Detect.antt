-- ===== src/Shtc3/Detect.antt =====
-- What the checksum test accepts, and what a measurement stores.
use Prim.Native.Nat.{bit_xor}
use zephyr_project.Prelude.{[], arith, if◌then◌else◌, ℕ, ◌<◌, ◌==◌, ◌∷◌, ◌≡◌}
use zephyr_project.Shtc3.{crc_bits, crc_bytes, shtc3_checkcrc, shtc3_checksum_error, shtc3_no_error}
use zephyr_project.Shtc3.Crc.{
  crc_bits-byte, crc_bits-injective, xor-injective, xor-injective_right, xor_byte,
}

register_first :
    (b₀ b₁ c : ℕ)
    → b₀ < 256
    → b₁ < 256
    → c < 256
    → crc_bytes (c ∷ b₁ ∷ []) 0xff ≡ crc_bytes (b₀ ∷ b₁ ∷ []) 0xff
    → c ≡ b₀
unfolding crc_bytes
register_first b₀ b₁ c h₀ h₁ hc e =
    let y = xor_byte 0xff b₀ (omega arith) h₀ in
    let z = xor_byte 0xff c (omega arith) hc in
    let p = crc_bits-byte (bit_xor 0xff b₀) y.1 in
    let q = crc_bits-byte (bit_xor 0xff c) z.1 in
    xor-injective_right c b₀ 0xff hc h₀ (omega arith) (
      crc_bits-injective _ _ z.1 y.1 (
        xor-injective _ _ b₁ q.1 p.1 h₁
          (crc_bits-injective _ _ ((xor_byte _ b₁ q.1 h₁).1) ((xor_byte _ b₁ p.1 h₁).1) e)))

register_second :
    (b₀ b₁ c : ℕ)
    → b₀ < 256
    → b₁ < 256
    → c < 256
    → crc_bytes (b₀ ∷ c ∷ []) 0xff ≡ crc_bytes (b₀ ∷ b₁ ∷ []) 0xff
    → c ≡ b₁
unfolding crc_bytes
register_second b₀ b₁ c h₀ h₁ hc e =
    let y = xor_byte 0xff b₀ (omega arith) h₀ in
    let p = crc_bits-byte (bit_xor 0xff b₀) y.1 in
    xor-injective_right c b₁ (crc_bits 8 (bit_xor 0xff b₀)) hc h₁ p.1
      (crc_bits-injective _ _ ((xor_byte _ c p.1 hc).1) ((xor_byte _ b₁ p.1 h₁).1) e)

-- When two bytes pass the test with their checksum, then with one of the three bytes replaced by any
-- byte the test passes exactly when that byte is the old one.
pub shtc3_checkcrc_detects :
    (b₀ b₁ s c : ℕ)
    → b₀ < 256
    → b₁ < 256
    → c < 256
    → shtc3_checkcrc (b₀ ∷ b₁ ∷ []) s ≡ shtc3_no_error
    → (shtc3_checkcrc (c ∷ b₁ ∷ []) s ≡ (if c == b₀ then shtc3_no_error else shtc3_checksum_error))
      × (shtc3_checkcrc (b₀ ∷ c ∷ []) s
          ≡ (if c == b₁ then shtc3_no_error else shtc3_checksum_error))
      × (shtc3_checkcrc (b₀ ∷ b₁ ∷ []) c
          ≡ (if c == s then shtc3_no_error else shtc3_checksum_error))
unfolding shtc3_checkcrc
shtc3_checkcrc_detects b₀ b₁ s c h₀ h₁ hc passes = (
  ground (arith, register_first b₀ b₁ c h₀ h₁ hc),
  ground (arith, register_second b₀ b₁ c h₀ h₁ hc),
  ground arith,
)
