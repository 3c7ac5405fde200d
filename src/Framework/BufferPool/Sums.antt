-- ===== src/Framework/BufferPool/Sums.antt =====
-- What the statistics of buffer_pool.c add up to, over the blocks that they count, from one critical
-- section to the next.
use zephyr_project.Framework.BufferPool.{
  Pool, bph_size, give_bph, give_stat_handler, take_bph, take_fail_stat_handler, zero_bph,
}
use zephyr_project.Framework.BufferPool.Accounts.{Accounts}
use zephyr_project.Framework.BufferPool.Blocks.{
  IsDistinct, erase, erase-IsDistinct, is_some, length-erase, lookup, lookup-erase, total,
  total-erase,
}
use zephyr_project.Framework.BufferPool.Heap.{block_of, bph_size_pos}
use zephyr_project.Framework.BufferPool.Ledger.{take_count, take_space}
use zephyr_project.Framework.BufferPool.Parts.{count_give, count_take}
use zephyr_project.Platform.{Platform}
use zephyr_project.Prelude.{
  List, arith, length, none, some, true, ℕ, ◌%◌, ◌+◌, ◌<◌, ◌^◌, ◌∷◌, ◌≡◌, update,
}
use zephyr_project.Framework.Types.{Msg}

module _ {p : Platform} where
  -- `blocks` are counted: each is listed once and has its size in its header, and with the space that is
  -- available the sizes add up to the size of the pool; the counters have 32 bits.
  pub record Sums (s : Pool p) (blocks : List (ℕ × ℕ)) : Type 0 where
    pub distinct : IsDistinct blocks
    pub sized : (b size : ℕ) → lookup b blocks ≡ some size → (s.bph b).size ≡ size
    pub space : (s.bps.space_available + total blocks) % 2 ^ 32 ≡ p.buffer_pool_size % 2 ^ 32
    pub counted : s.bps.cur_allocs ≡ length blocks % 2 ^ 32

  pub Sums-Accounts :
      (s : Pool p) (blocks : List (ℕ × ℕ))
      → ((b : ℕ) → p.live s.heap b ≡ is_some (lookup b blocks))
      → Sums s blocks
      → Accounts s blocks
  Sums-Accounts s blocks alive k = record {
    alive = alive;
    distinct = k.distinct;
    sized = k.sized;
    space = k.space;
    counted = k.counted;
  }

  pub Accounts-Sums : {s : Pool p} (blocks : List (ℕ × ℕ)) → Accounts s blocks → Sums s blocks
  Accounts-Sums blocks k = record {
    distinct = k.distinct;
    sized = k.sized;
    space = k.space;
    counted = k.counted;
  }

  -- A step that writes neither headers nor statistics.
  pub same-Sums :
      {s : Pool p} (s' : Pool p) (blocks : List (ℕ × ℕ))
      → s'.bph ≡ s.bph
      → s'.bps ≡ s.bps
      → Sums s blocks
      → Sums s' blocks
  same-Sums s' blocks headers stats k = record {
    distinct = k.distinct;
    sized = λ b size e. rw headers (k.sized b size e);
    space = rw stats k.space;
    counted = rw stats k.counted;
  }

  -- k_heap_alloc clears the header of a block that is not counted.
  pub clear-Sums :
      (s : Pool p) (heap : p.Heap) (mem : ℕ → Msg) (b : ℕ) (blocks : List (ℕ × ℕ))
      → lookup b blocks ≡ none
      → Sums s blocks
      → Sums (record s { heap = heap; mem = mem; bph = update s.bph b zero_bph }) blocks
  clear-Sums s heap mem b blocks new k = record {
    distinct = k.distinct;
    sized = λ a size e. ground (arith, k.sized a size e);
    space = k.space;
    counted = k.counted;
  }

  module _ (stats : p.buffer_pool_stats ≡ true) where
    pub fail-Sums :
        (size : ℕ) (s : Pool p) (blocks : List (ℕ × ℕ))
        → Sums s blocks
        → Sums (count_take p size 0 s) blocks
    unfolding take_fail_stat_handler
    fail-Sums size s blocks k = record {
      distinct = k.distinct;
      sized = k.sized;
      space = rw stats k.space;
      counted = rw stats k.counted;
    }

    pub count_take-Sums :
        (size b : ℕ) (s : Pool p) (blocks : List (ℕ × ℕ))
        → size < 2 ^ 16
        → lookup b blocks ≡ none
        → Sums s blocks
        → Sums (count_take p size (b + bph_size p.config) s) ((b, size) ∷ blocks)
    unfolding take_bph
    count_take-Sums size b s blocks small new k =
        rw (bph_size_pos p.config b, block_of b (bph_size p.config))
          (record {
            distinct = (new, k.distinct);
            sized = λ a n e. ground (arith, stats, k.sized a n);
            space = ground (arith, stats, take_space p.config size s.bps, k.space);
            counted = ground (arith, stats, take_count p.config size s.bps, k.counted);
          })

    pub count_give-Sums :
        (b size : ℕ) (s : Pool p) (blocks : List (ℕ × ℕ))
        → lookup b blocks ≡ some size
        → Sums s blocks
        → Sums (count_give p (b + bph_size p.config) s) (erase b blocks)
    unfolding give_stat_handler give_bph
    count_give-Sums b size s blocks used k =
        rw (bph_size_pos p.config b, block_of b (bph_size p.config))
          (record {
            distinct = erase-IsDistinct b blocks k.distinct;
            sized = λ a n e. ground (arith, k.sized a n, lookup-erase b a blocks k.distinct);
            space =
                ground (arith, stats, k.sized b size used, total-erase b size blocks used, k.space);
            counted = ground (arith, stats, length-erase b size blocks used, k.counted);
          })
