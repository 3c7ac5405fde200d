-- ===== src/Config/Hash.antt =====
-- `MurmurOATT_16` and `get_key_id` of lib/framework/sys_cfg.c. A char is an unsigned byte, as on ARM.
use Prim.Native.Nat.{bit_xor}
use zephyr_project.Prelude.{
  List, [], arith, false, refl, ℕ, ◌%◌, ◌*◌, ◌/◌, ◌<◌, ◌==◌, ◌^◌, ◌∷◌, ◌≡◌,
}

abbrev pub seed : ℕ
seed = 0x1234

-- One round: `h ^= c; h *= 0x5bd1; h ^= h >> 7;` in uint16_t.
unfoldable pub murmur_round : ℕ → ℕ → ℕ
murmur_round c h =
    let x = bit_xor h c % 2 ^ 16 in let y = x * 0x5bd1 % 2 ^ 16 in bit_xor y (y / 2 ^ 7) % 2 ^ 16

-- The string up to its NUL.
unfoldable pub murmur_oatt_16 : List ℕ → ℕ → ℕ
unfolding murmur_round
murmur_oatt_16 [] h = h
murmur_oatt_16 (c ∷ s) h = murmur_oatt_16 s (murmur_round c h)

unfoldable pub get_key_id : List ℕ → ℕ → ℕ
unfolding murmur_oatt_16
get_key_id key seed' = murmur_oatt_16 key (seed' % 2 ^ 16)

murmur_oatt_16-lt : (s : List ℕ) (h : ℕ) → h < 2 ^ 16 → murmur_oatt_16 s h < 2 ^ 16
unfolding murmur_oatt_16
murmur_oatt_16-lt [] h lt = lt
murmur_oatt_16-lt (c ∷ s) h lt = murmur_oatt_16-lt s (murmur_round c h) (omega arith)

-- A key id is a uint16_t.
pub get_key_id-lt : (key : List ℕ) (seed' : ℕ) → get_key_id key seed' < 2 ^ 16
unfolding get_key_id
get_key_id-lt key seed' = murmur_oatt_16-lt key (seed' % 2 ^ 16) (omega arith)

-- "dev_nonce" and "water_flow", the two keys that the application uses.
abbrev pub dev_nonce_key : List ℕ
dev_nonce_key = b'd' ∷ b'e' ∷ b'v' ∷ b'_' ∷ b'n' ∷ b'o' ∷ b'n' ∷ b'c' ∷ b'e' ∷ []

abbrev pub water_flow_key : List ℕ
water_flow_key = b'w' ∷ b'a' ∷ b't' ∷ b'e' ∷ b'r' ∷ b'_' ∷ b'f' ∷ b'l' ∷ b'o' ∷ b'w' ∷ []

-- The two keys do not collide.
pub app_keys_differ : (get_key_id dev_nonce_key seed == get_key_id water_flow_key seed) ≡ false
unfolding get_key_id
app_keys_differ = refl
