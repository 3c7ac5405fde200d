-- ===== src/Framework/BufferPool/Accounts.antt =====
-- The books of the buffer pool: what the statistics of buffer_pool.c say of the allocated blocks,
-- over any sequence of takes and frees.
use zephyr_project.Framework.BufferPool.Ledger.{take_count, take_space}
use Prim.{tt}
use zephyr_project.Prelude.{
  List, Option, [], arith, false, if◌then◌else◌, length, none, some, true, ℕ, ◌+◌, ◌==◌, ◌∷◌, ◌≡◌,
  refl, ◌%◌, ◌<◌, ◌^◌, ◌∙◌, if_elim, not, ◌&&◌, sym,
}
use zephyr_project.Framework.BufferPool.{
  Pool, bph_size, buffer_pool_free, buffer_pool_take, buffer_pool_try_to_take_timeout, take_bph,
  take_fail_stat_handler, took, buffer_pool_try_to_take, give_bph, give_stat_handler,
  buffer_pool_init, buffer_pool_init_stats,
}
use zephyr_project.Framework.Types.{Msg}
use zephyr_project.Platform.{Platform, Timeout, no_wait}
use zephyr_project.Framework.BufferPool.Heap.{block_of, bph_size_pos}
use zephyr_project.Framework.BufferPool.Blocks.{
  total, IsDistinct, erase, erase-IsDistinct, found, is_some, length-erase, lookup, lookup-erase,
  total-erase,
}

module _ {p : Platform} where
  -- `blocks` are the allocated blocks, each block's header has its size, the space that is available
  -- and the sizes in use add up to the size of the pool, and the blocks in use are counted; the
  -- counters have 32 bits.
  pub record Accounts (s : Pool p) (blocks : List (ℕ × ℕ)) : Type 0 where
    pub alive : (b : ℕ) → p.live s.heap b ≡ is_some (lookup b blocks)
    pub distinct : IsDistinct blocks
    pub sized : (b size : ℕ) → lookup b blocks ≡ some size → (s.bph b).size ≡ size
    pub space : (s.bps.space_available + total blocks) % 2 ^ 32 ≡ p.buffer_pool_size % 2 ^ 32
    pub counted : s.bps.cur_allocs ≡ length blocks % 2 ^ 32

  -- What the pool's clients do: take a buffer whose size fits the header's sixteen bits, free a buffer
  -- that is in use, or NULL, and write into the buffers.
  pub data Uses : Pool p → Pool p → Type 0 where
    takes : {s : Pool p} (size : ℕ) → size < 2 ^ 16 → Uses s (buffer_pool_take p size s).1
    tries :
        {s : Pool p} (size : ℕ) (t : Timeout)
        → size < 2 ^ 16
        → Uses s (buffer_pool_try_to_take_timeout p size t s).1
    frees :
        {s : Pool p} (b : ℕ)
        → p.live s.heap b ≡ true
        → Uses s (buffer_pool_free p (b + bph_size p.config) s)
    frees_null : {s : Pool p} → Uses s (buffer_pool_free p 0 s)
    writes : {s : Pool p} (mem : ℕ → Msg) → Uses s (record s { mem = mem })
    then_uses : {s t u : Pool p} → Uses s t → Uses t u → Uses s u

  module _ (stats : p.buffer_pool_stats ≡ true) where
    -- After an allocation from the heap, the books with or without a new block.
    took-Accounts :
        (size : ℕ) (o : Option ℕ) (h : p.Heap) (s : Pool p) (blocks : List (ℕ × ℕ))
        → size < 2 ^ 16
        → ((b : ℕ)
            → o ≡ some b
            → (p.live s.heap b ≡ false)
              × ((a : ℕ) → p.live h a ≡ (if a == b then true else p.live s.heap a)))
        → (o ≡ none → (a : ℕ) → p.live h a ≡ p.live s.heap a)
        → Accounts s blocks
        → (blocks' : List (ℕ × ℕ)) × Accounts (took p size o h s).1 blocks'
    unfolding took take_fail_stat_handler take_bph
    took-Accounts size none h s blocks small got failed k = (
      blocks,
      record {
        alive = λ b. failed refl b ∙ k.alive b;
        distinct = k.distinct;
        sized = k.sized;
        space = rw stats k.space;
        counted = rw stats k.counted;
      },
    )
    took-Accounts size (some b) h s blocks small got failed k =
        let (fresh, held) = got b refl in
        (
          (b, size) ∷ blocks,
          record {
            alive = λ a. ground (arith, held a, k.alive a);
            distinct = (ground (arith, fresh, k.alive b), k.distinct);
            sized = λ a n e. ground (arith, stats, k.sized a n);
            space = ground (arith, stats, take_space p.config size s.bps, k.space);
            counted = ground (arith, stats, take_count p.config size s.bps, k.counted);
          },
        )

    try_to_take_timeout-Accounts :
        (size : ℕ) (t : Timeout) (s : Pool p) (blocks : List (ℕ × ℕ))
        → size < 2 ^ 16
        → Accounts s blocks
        → (blocks' : List (ℕ × ℕ)) × Accounts (buffer_pool_try_to_take_timeout p size t s).1 blocks'
    unfolding buffer_pool_try_to_take_timeout
    try_to_take_timeout-Accounts size t s blocks small k =
        took-Accounts size _ _ s blocks small
          (λ b e. (p.alloc_fresh s.heap _ t b e, p.alloc_live s.heap _ t b e))
          (p.alloc_none s.heap _ t) k

    take-Accounts :
        (size : ℕ) (s : Pool p) (blocks : List (ℕ × ℕ))
        → size < 2 ^ 16
        → Accounts s blocks
        → (blocks' : List (ℕ × ℕ)) × Accounts (buffer_pool_take p size s).1 blocks'
    unfolding buffer_pool_take buffer_pool_try_to_take
    take-Accounts size s blocks small k =
        let r = buffer_pool_try_to_take_timeout p size no_wait s in
        let (blocks', k') = try_to_take_timeout-Accounts size no_wait s blocks small k in
        (
          blocks',
          if_elim (λ (x : ℕ × Pool p). Accounts x.1 blocks') (r.0 == 0 && not (r.1).take_failed)
              (λ _. record {
                alive = k'.alive;
                distinct = k'.distinct;
                sized = k'.sized;
                space = k'.space;
                counted = k'.counted;
              })
              (λ _. k'),
        )

    -- A block in use is no longer counted after it is freed.
    free-Accounts :
        (b size : ℕ) (s : Pool p) (blocks : List (ℕ × ℕ))
        → lookup b blocks ≡ some size
        → Accounts s blocks
        → Accounts (buffer_pool_free p (b + bph_size p.config) s) (erase b blocks)
    unfolding buffer_pool_free give_stat_handler give_bph
    free-Accounts b size s blocks used k =
        rw (bph_size_pos p.config b, block_of b (bph_size p.config))
          (record {
            alive = λ a.
                ground
                  (arith, p.free_live s.heap b a, k.alive a, lookup-erase b a blocks k.distinct);
            distinct = erase-IsDistinct b blocks k.distinct;
            sized = λ a n e. ground (arith, k.sized a n, lookup-erase b a blocks k.distinct);
            space =
                ground (arith, stats, k.sized b size used, total-erase b size blocks used, k.space);
            counted = ground (arith, stats, length-erase b size blocks used, k.counted);
          })

    -- When the statistics are compiled in and the books are right, they are right after any sequence
    -- of takes of less than 64 KiB, frees of blocks in use or of NULL, and writes: the allocated
    -- blocks can be listed, each once and with its size in its header, so that the space that is
    -- available and these sizes add up to the pool's size, and the number of buffers in use is theirs
    -- (modulo 2^32).
    pub Uses-Accounts :
        {s s' : Pool p} (blocks : List (ℕ × ℕ))
        → Accounts s blocks
        → Uses s s'
        → (blocks' : List (ℕ × ℕ)) × Accounts s' blocks'
    unfolding buffer_pool_free
    Uses-Accounts {s} blocks k (takes size small) = take-Accounts size s blocks small k
    Uses-Accounts {s} blocks k (tries size t small) =
        try_to_take_timeout-Accounts size t s blocks small k
    Uses-Accounts {s} blocks k (frees b used) =
        let (size, e) = found (lookup b blocks) (sym (k.alive b) ∙ used) in
        (erase b blocks, free-Accounts b size s blocks e k)
    Uses-Accounts blocks k frees_null = (blocks, k)
    Uses-Accounts blocks k (writes mem) = (
      blocks,
      record {
        alive = k.alive;
        distinct = k.distinct;
        sized = k.sized;
        space = k.space;
        counted = k.counted;
      },
    )
    Uses-Accounts blocks k (then_uses first rest) =
        let (blocks', k') = Uses-Accounts blocks k first in Uses-Accounts blocks' k' rest

    -- At the start: the heap is empty, and the statistics are the zeros of an uninitialised variable.
    pub buffer_pool_init-Accounts :
        (s : Pool p)
        → ((b : ℕ) → p.live s.heap b ≡ false)
        → s.bps.initialized ≡ false
        → s.bps.cur_allocs ≡ 0
        → Accounts (buffer_pool_init p s) []
    unfolding buffer_pool_init buffer_pool_init_stats
    buffer_pool_init-Accounts s empty fresh none_used = record {
      alive = empty;
      distinct = tt;
      sized = λ b size e. cc;
      space = ground (arith, stats, fresh);
      counted = ground (arith, stats, fresh, none_used);
    }

    -- When the books are right and no block is in use, all of the pool's space is available.
    pub empty-Accounts :
        (s : Pool p) (blocks : List (ℕ × ℕ))
        → Accounts s blocks
        → ((b : ℕ) → p.live s.heap b ≡ false)
        → (s.bps.space_available % 2 ^ 32 ≡ p.buffer_pool_size % 2 ^ 32) × (s.bps.cur_allocs ≡ 0)
    empty-Accounts s [] k empty = (ground (arith, k.space), k.counted)
    empty-Accounts s ((b, size) ∷ rest) k empty = absurd (ground (arith, k.alive b, empty b))
