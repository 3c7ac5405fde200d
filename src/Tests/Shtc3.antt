-- ===== src/Tests/Shtc3.antt =====
-- The sensor's theorems at the data sheet's example: the checksum of 0xbe 0xef is 0x92.
use Prim.Native.Nat.{bit_xor}
use zephyr_project.Prelude.{[], arith, false, refl, suc, zero, ℕ, ◌*◌, ◌<◌, ◌∷◌, ◌≡◌}
use zephyr_project.Prelude.Int.{is_zero, negsuc, pos, ℤ}
use zephyr_project.Shtc3.{
  Reading, Values, crc_bits, crc_bytes, shtc3_checkcrc, shtc3_checksum_error,
  shtc3_get_temp_and_humidity, shtc3_no_error,
}
use zephyr_project.Shtc3.Crc.{crc_bytes-remainder, remainder}
use zephyr_project.Shtc3.Detect.{shtc3_checkcrc_detects}
use zephyr_project.Shtc3.Measure.{Stored, shtc3_get_temp_and_humidity-Stored}

crc_bytes-remainder_example :
    crc_bytes (0xbe ∷ 0xef ∷ []) 0xff
    ≡ remainder 7 (bit_xor (remainder 7 (bit_xor 0xff 0xbe * 256)) 0xef * 256)
crc_bytes-remainder_example = crc_bytes-remainder 0xbe 0xef (omega arith) (omega arith)

passes : shtc3_checkcrc (0xbe ∷ 0xef ∷ []) 0x92 ≡ shtc3_no_error
unfolding shtc3_checkcrc crc_bytes crc_bits
passes = refl

shtc3_checkcrc_detects_example :
    (shtc3_checkcrc (0xbf ∷ 0xef ∷ []) 0x92 ≡ shtc3_checksum_error)
    × (shtc3_checkcrc (0xbe ∷ 0xbf ∷ []) 0x92 ≡ shtc3_checksum_error)
    × (shtc3_checkcrc (0xbe ∷ 0xef ∷ []) 0xbf ≡ shtc3_checksum_error)
shtc3_checkcrc_detects_example =
    shtc3_checkcrc_detects 0xbe 0xef 0x92 0xbf (omega arith) (omega arith) (omega arith) passes

-- The humidity's checksum is wrong.
abbrev values : Values
values = record {
  t_high = 0xbe;
  t_low = 0xef;
  temperature_crc = 0x92;
  h_high = 0xbe;
  h_low = 0xef;
  humidity_crc = 0;
}

-- The first read fails, the others succeed.
abbrev second_read : ℕ → ℤ × Values
second_read zero = (negsuc 4, values)
second_read (suc k) = (pos 0, values)

abbrev no_read : ℕ → ℤ × Values
no_read k = (negsuc 4, values)

abbrev reading : Reading
reading = record { temperature = 1; humidity = 2 }

first_fails : (i : ℕ) → i < 1 → is_zero (second_read i).0 ≡ false
first_fails zero lt = refl
first_fails (suc i) lt = absurd (omega arith)

shtc3_get_temp_and_humidity-Stored_example :
    let got = shtc3_get_temp_and_humidity second_read reading in
    (got.0 ≡ shtc3_no_error)
    × Stored values.t_high values.t_low values.temperature_crc 1 got.1.temperature
    × Stored values.h_high values.h_low values.humidity_crc 2 got.1.humidity
shtc3_get_temp_and_humidity-Stored_example =
    shtc3_get_temp_and_humidity-Stored 1 second_read reading (omega arith) first_fails refl
      (omega arith) (omega arith) (omega arith) (omega arith)
