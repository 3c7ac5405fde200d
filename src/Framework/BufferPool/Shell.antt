-- ===== src/Framework/BufferPool/Shell.antt =====
-- The command `bp stats` of lib/framework/buffer_shell.c: the lines that it prints, by their values.
use zephyr_project.Framework.BufferPool.{BpStats, Pool, buffer_pool_get_stats}
use zephyr_project.Platform.{Kconfig, Platform}
use zephyr_project.Prelude.{
  List, Option, [], ap, arith, get_or, if◌then◌else◌, length, none, refl, some, suc, true, zero, ℕ,
  ◌-◌, ◌==◌, ◌∙◌, ◌∷◌, ◌∷◌, ◌≡◌,
}
use zephyr_project.Prelude.Int.{is_zero, pos, ℤ}

pub data StatsLine : Type 0 where
  pool_index initialized space_available min_space_available min_alloced_size max_alloced_size :
      ℕ → StatsLine
  total_allocs current_allocations max_allocations failures last_failure : ℕ → StatsLine
  recent_sizes : List ℕ → StatsLine
  not_available : ℤ → StatsLine

-- The loop over the window, and the last size behind it.
unfoldable pub window_sizes : ℕ → ℕ → List ℕ → List ℕ
window_sizes zero i window = get_or window i 0 ∷ []
window_sizes (suc k) i window = get_or window i 0 ∷ window_sizes k (suc i) window

unfoldable pub stats_lines : Kconfig → BpStats → List StatsLine
stats_lines c s =
    pool_index 0
    ∷ initialized (if s.initialized then 1 else 0)
    ∷ space_available s.space_available
    ∷ min_space_available s.min_space_available
    ∷ min_alloced_size s.min_size
    ∷ max_alloced_size s.max_size
    ∷ total_allocs s.allocs
    ∷ current_allocations s.cur_allocs
    ∷ max_allocations s.max_allocs
    ∷ failures s.take_failures
    ∷ last_failure s.last_fail_size
    ∷ (if c.buffer_pool_window_size == 0
        then []
        else recent_sizes (window_sizes (c.buffer_pool_window_size - 1) 0 s.window) ∷ [])

unfoldable pub result_lines : Kconfig → ℤ → Option BpStats → List StatsLine
result_lines c r none = not_available r ∷ []
result_lines c r (some s) = if is_zero r then stats_lines c s else not_available r ∷ []

unfoldable pub bp_stats : (p : Platform) → Pool p → ℤ × List StatsLine
bp_stats p s = let r = buffer_pool_get_stats p 0 true s in (pos 0, result_lines p.config r.0 r.1)

window_sizes-shift :
    (k i x : ℕ) (xs : List ℕ) → window_sizes k (suc i) (x ∷ xs) ≡ window_sizes k i xs
unfolding window_sizes
window_sizes-shift zero i x xs = refl
window_sizes-shift (suc k) i x xs = ap (◌∷◌ (get_or xs i 0)) (window_sizes-shift k (suc i) x xs)

-- The sizes that are printed are those of a window of that length, all of them, in order.
pub window_sizes-all :
    (k : ℕ) (window : List ℕ) → length window ≡ suc k → window_sizes k 0 window ≡ window
unfolding window_sizes
window_sizes-all k [] e = absurd (omega arith)
window_sizes-all zero (x ∷ []) e = refl
window_sizes-all zero (x ∷ (y ∷ xs)) e = absurd (omega arith)
window_sizes-all (suc k) (x ∷ xs) e =
    ap (◌∷◌ x) (window_sizes-shift k 0 x xs ∙ window_sizes-all k xs (omega arith))
