-- ===== src/Shtc3.antt =====
-- app/src/shtc3.c and app/include/shtc3.h: the SHTC3 sensor on the I2C bus. A uint8_t that is given
-- -1 or -2 holds 255 or 254. The bus is an argument: what its calls return.
pub mod Crc
pub mod Measure
pub mod Detect
use Prim.Native.Nat.{bit_and, bit_xor}
use zephyr_project.Prelude.{
  List, [], if◌then◌else◌, not, suc, zero, ℕ, ◌%◌, ◌*◌, ◌+◌, ◌-◌, ◌/◌, ◌==◌, ◌^◌, ◌∷◌,
}
use zephyr_project.Prelude.Int.{is_zero, negsuc, pos, ℤ}

abbrev pub shtc3_no_error : ℕ
shtc3_no_error = 0

abbrev pub shtc3_checksum_error : ℕ
shtc3_checksum_error = 255

abbrev pub shtc3_i2c_error : ℕ
shtc3_i2c_error = 254

abbrev pub shtc3_no_retries : ℕ
shtc3_no_retries = 100

abbrev pub crc_polynomial : ℕ
crc_polynomial = 0x131

-- One round of the inner loop, in uint8_t.
unfoldable pub crc_bit : ℕ → ℕ
crc_bit crc =
    if bit_and crc 0x80 == 0 then crc * 2 % 256 else bit_xor (crc * 2) crc_polynomial % 256

unfoldable pub crc_bits : ℕ → ℕ → ℕ
unfolding crc_bit
crc_bits zero crc = crc
crc_bits (suc bitmask) crc = crc_bits bitmask (crc_bit crc)

-- The outer loop over the bytes.
unfoldable pub crc_bytes : List ℕ → ℕ → ℕ
crc_bytes [] crc = crc
crc_bytes (b ∷ bs) crc = crc_bytes bs (crc_bits 8 (bit_xor crc b))

unfoldable pub shtc3_checkcrc : List ℕ → ℕ → ℕ
shtc3_checkcrc bs checksum =
    if crc_bytes bs 0xff == checksum then shtc3_no_error else shtc3_checksum_error

-- i2c_write_short: the three bytes that go out, and the status for what `i2c_write` returned.
unfoldable pub i2c_write_short : ℤ → ℕ → ℕ → List ℕ × ℤ
i2c_write_short ret command word = (
  command ∷ bit_and word 0xff00 / 2 ^ 8 ∷ bit_and word 0xff ∷ [],
  if is_zero ret then pos 0 else negsuc 0,
)

unfoldable pub bswap_16 : ℕ → ℕ
bswap_16 x = x % 256 * 256 + x / 256 % 256

-- i2c_read_short gives an int16_t: the pattern of -1 on an error.
unfoldable pub i2c_read_short : ℤ → ℕ → ℕ
unfolding bswap_16
i2c_read_short ret word = if is_zero ret then bswap_16 word else 0xffff

-- union DATA: the six bytes of a measurement.
pub record Values : Type 0 where
  pub t_high : ℕ
  pub t_low : ℕ
  pub temperature_crc : ℕ
  pub h_high : ℕ
  pub h_low : ℕ
  pub humidity_crc : ℕ

-- The words that the caller's two pointers name.
pub record Reading : Type 0 where
  pub temperature : ℕ
  pub humidity : ℕ

-- The do-while loop of reads: `bus k` is what the (k+1)-th i2c_read returns and stores.
unfoldable pub read_loop : ℕ → (ℕ → ℤ × Values) → ℕ → ℤ × Values
read_loop zero bus k = bus k
read_loop (suc left) bus k =
    let again = read_loop left bus (suc k) in if is_zero (bus k).0 then bus k else again

unfoldable pub store_checked : Values → Reading → Reading
store_checked v r = record {
  temperature =
      if shtc3_checkcrc (v.t_high ∷ v.t_low ∷ []) v.temperature_crc == shtc3_no_error
      then v.t_high * 256 + v.t_low
      else r.temperature;
  humidity =
      if shtc3_checkcrc (v.h_high ∷ v.h_low ∷ []) v.humidity_crc == shtc3_no_error
      then v.h_high * 256 + v.h_low
      else r.humidity;
}

unfoldable pub shtc3_get_temp_and_humidity : (ℕ → ℤ × Values) → Reading → ℕ × Reading
shtc3_get_temp_and_humidity bus r =
    let bytes = read_loop (shtc3_no_retries - 1) bus 0 in
    if is_zero bytes.0 then (shtc3_no_error, store_checked bytes.1 r) else (shtc3_i2c_error, r)

-- shtc3_wakeup, shtc3_sleep and shtc3_software_reset differ in their command only: the bytes that go
-- out, high byte first, and the status for what `i2c_write` returned.
unfoldable pub shtc3_command : ℕ → ℤ → List ℕ × ℕ
shtc3_command cmd ret =
    (cmd / 256 ∷ cmd % 256 ∷ [], if is_zero ret then shtc3_no_error else shtc3_i2c_error)

abbrev pub shtc3_wakeup : ℤ → List ℕ × ℕ
shtc3_wakeup = shtc3_command 0x3517

abbrev pub shtc3_sleep : ℤ → List ℕ × ℕ
shtc3_sleep = shtc3_command 0xb098

abbrev pub shtc3_software_reset : ℤ → List ℕ × ℕ
shtc3_software_reset = shtc3_command 0x805d

-- `i2c_write_read` returns a status and three bytes.
unfoldable pub shtc3_readid : ℤ → ℕ → ℕ → ℕ → ℕ
shtc3_readid ret b₀ b₁ b₂ =
    if not (is_zero ret)
    then shtc3_i2c_error
    else if shtc3_checkcrc (b₀ ∷ b₁ ∷ []) b₂ == shtc3_no_error
    then shtc3_no_error
    else shtc3_checksum_error
