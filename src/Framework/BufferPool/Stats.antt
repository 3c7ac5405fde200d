-- ===== src/Framework/BufferPool/Stats.antt =====
-- The window of recent sizes in the statistics of buffer_pool.c.
use zephyr_project.Framework.BufferPool.{BpStats, take_stat_handler, window_push}
use zephyr_project.Platform.{Kconfig}
use zephyr_project.Prelude.{
  get_or, length, suc, ℕ, ◌%◌, ◌<◌, ◌^◌, ◌≡◌, ◌≢◌, ==_ne, List, [], arith, length-set, refl, set,
  zero, ◌∙◌, ◌∷◌,
}

get_or-set : (xs : List ℕ) (i v : ℕ) → i < length xs → get_or (set xs i v) i 0 ≡ v
get_or-set [] i v lt = absurd (omega arith)
get_or-set (x ∷ xs) zero v lt = refl
get_or-set (x ∷ xs) (suc i) v lt = get_or-set xs i v (omega arith)

-- Counting a take writes the size into the window at its index, keeps the window's size, and
-- keeps the index inside the window, when there is a window.
pub take_stat_handler-WindowIsValid :
    (c : Kconfig) (size : ℕ) (s : BpStats)
    → c.buffer_pool_window_size ≢ 0
    → length s.window ≡ c.buffer_pool_window_size
    → s.windex < c.buffer_pool_window_size
    → let s' = take_stat_handler c size s in
      (length s'.window ≡ c.buffer_pool_window_size)
      × (s'.windex < c.buffer_pool_window_size)
      × (get_or s'.window s.windex 0 ≡ size % 2 ^ 16)
unfolding take_stat_handler window_push
take_stat_handler-WindowIsValid c size s ne len lt = rw (==_ne c.buffer_pool_window_size 0 ne) (
  length-set s.window s.windex (size % 2 ^ 16) ∙ len,
  ground arith,
  get_or-set s.window s.windex (size % 2 ^ 16) (omega arith),
)
