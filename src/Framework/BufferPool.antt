-- ===== src/Framework/BufferPool.antt =====
-- lib/framework/buffer_pool.c and the statistics of include/framework/buffer_pool.h. The memory
-- behind the heap is a table of messages by the address of the buffer, and a table of block headers
-- by the address of the block. size_t and int have 32 bits.
pub mod Stats
pub mod Shell
pub mod Ledger
pub mod Heap
pub mod Parts
pub mod Blocks
pub mod Accounts
pub mod Sums
use zephyr_project.Prelude.{
  ℕ, ◌+◌, ◌-◌, ◌/◌, ◌%◌, ◌^◌, Bool, true, false, ◌&&◌, not, Option, none, some, List, [], ◌==◌, leb,
  ltb, if◌then◌else◌, update, set, replicate, add32, sub32, min_int, max_int, min_word, max_word,
}
use zephyr_project.Prelude.Int.{ℤ, pos, negsuc}
use zephyr_project.Platform.{Timeout, no_wait, Kconfig, Platform}
use zephyr_project.Framework.Types.{MsgHeader, Msg, DispatchResult}

-- struct bph; `ptr` is there when CONFIG_BUFFER_POOL_CHECK_DOUBLE_FREE is set.
pub record Bph : Type 0 where
  pub ptr : ℕ
  pub size : ℕ
  pub pool : ℕ

pub record BpStats : Type 0 where
  pub initialized : Bool
  pub space_available : ℕ
  pub min_space_available : ℕ
  pub max_size : ℕ
  pub min_size : ℕ
  pub allocs : ℕ
  pub cur_allocs : ℕ
  pub max_allocs : ℕ
  pub take_failures : ℕ
  pub last_fail_size : ℕ
  pub windex : ℕ
  pub window : List ℕ

-- BPH_SIZE
unfoldable pub bph_size : Kconfig → ℕ
bph_size c = if c.buffer_pool_check_double_free then 8 else 4

unfoldable pub buffer_pool_init_stats : Kconfig → BpStats → BpStats
buffer_pool_init_stats c s =
    if c.buffer_pool_stats && not s.initialized
    then record s {
      initialized = true;
      space_available = c.buffer_pool_size;
      min_space_available = c.buffer_pool_size;
      min_size = c.buffer_pool_size;
    }
    else s

-- The window of recent sizes, present when its size is not zero.
window_push : Kconfig → ℕ → BpStats → BpStats
window_push c size s =
    let next = s.windex + 1 in
    if c.buffer_pool_window_size == 0 then s else record s {
      windex = if leb c.buffer_pool_window_size next then 0 else next;
      window = set s.window s.windex (size % 2 ^ 16);
    }

unfoldable pub take_stat_handler : Kconfig → ℕ → BpStats → BpStats
unfolding window_push
take_stat_handler c size s =
    let space = sub32 s.space_available size in
    let cur = add32 s.cur_allocs 1 in
    window_push c size (record s {
      space_available = space;
      min_space_available = min_int s.min_space_available space;
      min_size = min_word s.min_size size;
      max_size = max_word s.max_size size;
      allocs = add32 s.allocs 1;
      cur_allocs = cur;
      max_allocs = max_int s.max_allocs cur;
    })

-- The header that `take_stat_handler` writes into the new block `b`.
unfoldable pub take_bph : Kconfig → ℕ → ℕ → Bph → Bph
take_bph c b size h = record h {
  size = size % 2 ^ 16;
  ptr = if c.buffer_pool_check_double_free then b else h.ptr;
}

unfoldable pub take_fail_stat_handler : ℕ → BpStats → BpStats
take_fail_stat_handler size s = record s {
  take_failures = add32 s.take_failures 1;
  last_fail_size = size;
  min_space_available = min_word s.min_space_available (sub32 s.space_available size);
}

unfoldable pub give_stat_handler : Bph → BpStats → BpStats
give_stat_handler h s = record s {
  space_available = add32 s.space_available h.size;
  cur_allocs = sub32 s.cur_allocs 1;
}

-- A block whose header points at itself is marked as given back.
unfoldable pub give_bph : Kconfig → ℕ → Bph → Bph
give_bph c b h = if c.buffer_pool_check_double_free && h.ptr == b then record h { ptr = 0 } else h

-- `mem` is by buffer address, `bph` by block address; `take_failed` is the atomic flag.
pub record Pool (p : Platform) : Type 0 where
  pub heap : p.Heap
  pub mem : ℕ → Msg
  pub bph : ℕ → Bph
  pub bps : BpStats
  pub take_failed : Bool

-- What memset leaves: a zero header and the words that fit behind it.
abbrev pub zeroed : ℕ → Msg
zeroed size = record {
  header = record { msg_code = 0; rx_id = 0; tx_id = 0; options = 0 };
  payload = replicate ((size - 4) / 4) 0;
}

abbrev pub zero_bph : Bph
zero_bph = record { ptr = 0; size = 0; pool = 0 }

module _ (p : Platform) where
  unfoldable pub buffer_pool_init : Pool p → Pool p
  buffer_pool_init s = record s { bps = buffer_pool_init_stats p.config s.bps }

  took : ℕ → Option ℕ → p.Heap → Pool p → ℕ × Pool p
  took size none h s = (
    0,
    record s {
      heap = h;
      bps = if p.buffer_pool_stats then take_fail_stat_handler size s.bps else s.bps;
    },
  )
  took size (some b) h s = (
    b + bph_size p.config,
    record s {
      heap = h;
      mem = update s.mem (b + bph_size p.config) (zeroed size);
      bph =
          update s.bph b
            (if p.buffer_pool_stats then take_bph p.config b size zero_bph else zero_bph);
      bps = if p.buffer_pool_stats then take_stat_handler p.config size s.bps else s.bps;
    },
  )

  -- The address of the buffer, 0 for NULL.
  unfoldable pub buffer_pool_try_to_take_timeout : ℕ → Timeout → Pool p → ℕ × Pool p
  unfolding took
  buffer_pool_try_to_take_timeout size timeout s =
      let r = p.k_heap_alloc s.heap (add32 size (bph_size p.config)) timeout in took size r.0 r.1 s

  unfoldable pub buffer_pool_try_to_take : ℕ → Pool p → ℕ × Pool p
  buffer_pool_try_to_take size s = buffer_pool_try_to_take_timeout size no_wait s

  unfoldable pub buffer_pool_take : ℕ → Pool p → ℕ × Pool p
  buffer_pool_take size s =
      let r = buffer_pool_try_to_take size s in
      if r.0 == 0 && not (r.1).take_failed then (r.0, record (r.1) { take_failed = true }) else r

  unfoldable pub buffer_pool_free : ℕ → Pool p → Pool p
  buffer_pool_free ptr s =
      let b = ptr - bph_size p.config in
      if ptr == 0 then s else record s {
        heap = p.k_heap_free s.heap b;
        bph = if p.buffer_pool_stats then update s.bph b (give_bph p.config b (s.bph b)) else s.bph;
        bps = if p.buffer_pool_stats then give_stat_handler (s.bph b) s.bps else s.bps;
      }

  -- 0 and the copied statistics, or -EINVAL. `wants` is `stats != NULL`.
  unfoldable pub buffer_pool_get_stats : ℕ → Bool → Pool p → ℤ × Option BpStats
  buffer_pool_get_stats index wants s =
      if p.buffer_pool_stats && index == 0 && wants then (pos 0, some s.bps) else (negsuc 21, none)
