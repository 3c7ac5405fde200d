-- ===== src/Framework/BufferPool/Ledger.antt =====
-- What the statistics of buffer_pool.c count of the buffers in use.
use zephyr_project.Framework.BufferPool.{
  BpStats, Bph, give_stat_handler, take_bph, take_stat_handler, window_push,
}
use zephyr_project.Platform.{Kconfig}
use zephyr_project.Prelude.{add32, arith, sub32, ℕ, ◌<◌, ◌^◌, ◌≡◌, ◌%◌}

add_sub32 : (a b : ℕ) → a < 2 ^ 32 → b < 2 ^ 32 → add32 (sub32 a b) b ≡ a
add_sub32 a b lt lt' = ground arith

sub_add32 : (a b : ℕ) → a < 2 ^ 32 → b < 2 ^ 32 → sub32 (add32 a b) b ≡ a
sub_add32 a b lt lt' = ground arith

pub take_space :
    (c : Kconfig) (size : ℕ) (s : BpStats)
    → (take_stat_handler c size s).space_available ≡ sub32 s.space_available size
unfolding take_stat_handler window_push
take_space c size s = ground arith

pub take_count :
    (c : Kconfig) (size : ℕ) (s : BpStats)
    → (take_stat_handler c size s).cur_allocs ≡ add32 s.cur_allocs 1
unfolding take_stat_handler window_push
take_count c size s = ground arith

-- The statistics after a take and the give of the same block: with a size that fits the header's
-- sixteen bits, the space and the number of buffers in use are what they were.
pub give_stat_handler-take_stat_handler :
    (c : Kconfig) (b size : ℕ) (h : Bph) (s : BpStats)
    → size < 2 ^ 16
    → s.space_available < 2 ^ 32
    → s.cur_allocs < 2 ^ 32
    → let s' = give_stat_handler (take_bph c b size h) (take_stat_handler c size s) in
      (s'.space_available ≡ s.space_available) × (s'.cur_allocs ≡ s.cur_allocs)
unfolding give_stat_handler take_bph
give_stat_handler-take_stat_handler c b size h s small space cur =
    let fits : size % 2 ^ 16 ≡ size = omega arith in
    (
      rw (fits, take_space c size s) (add_sub32 s.space_available size space (omega arith)),
      rw (take_count c size s) (sub_add32 s.cur_allocs 1 cur (omega arith)),
    )
