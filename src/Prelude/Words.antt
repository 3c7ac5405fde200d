-- ===== src/Prelude/Words.antt =====
-- 32-bit machine words: a C int or size_t is its bit pattern, a number below 2 ^ 32.
use Prim.Native.Nat.{ℕ, ◌+◌, ◌-◌, ◌%◌, ◌^◌}
use mathlib.Core.Bool.{Bool}
use zephyr_project.Prelude.Tests.{ltb, if◌then◌else◌}

abbrev pub add32 : ℕ → ℕ → ℕ
add32 a b = (a + b) % 2 ^ 32

abbrev pub sub32 : ℕ → ℕ → ℕ
sub32 a b = (a + 2 ^ 32 - b % 2 ^ 32) % 2 ^ 32

-- `<` on int, and on size_t.
abbrev pub lt_int : ℕ → ℕ → Bool
lt_int a b = ltb ((a + 2 ^ 31) % 2 ^ 32) ((b + 2 ^ 31) % 2 ^ 32)

abbrev pub min_int : ℕ → ℕ → ℕ
min_int a b = if lt_int a b then a else b

abbrev pub max_int : ℕ → ℕ → ℕ
max_int a b = if lt_int b a then a else b

-- MIN and MAX of an int and a size_t compare as unsigned words.
abbrev pub min_word : ℕ → ℕ → ℕ
min_word a b = if ltb a b then a else b

abbrev pub max_word : ℕ → ℕ → ℕ
max_word a b = if ltb b a then a else b
