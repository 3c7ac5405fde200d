-- ===== src/Framework/BufferPool/Parts.antt =====
-- The critical sections that a take and a free consist of (buffer_pool.c): the call of the heap, the
-- update of the statistics, and the flag of the first failure. Between two of them an interrupt or
-- another thread may run.
use mathlib.Core.Path.{fun_ext}
use zephyr_project.Framework.BufferPool.{
  Bph, Pool, bph_size, buffer_pool_free, buffer_pool_take, buffer_pool_try_to_take,
  buffer_pool_try_to_take_timeout, give_bph, give_stat_handler, take_bph, take_fail_stat_handler,
  take_stat_handler, took, zero_bph, zeroed,
}
use zephyr_project.Framework.BufferPool.Heap.{Takes, bph_size_pos, block_of}
use zephyr_project.Platform.{Platform, no_wait, Kconfig}
use zephyr_project.Prelude.{
  ℕ, ◌+◌, ◌-◌, ◌==◌, ◌≡◌, Option, none, some, add32, ap, arith, if◌then◌else◌, inl, inr, refl,
  update, true, false, if_elim, ◌&&◌, not, ◌∙◌, Bool, update_self,
}

module _ (p : Platform) where
  abbrev pub allocated : ℕ → Option ℕ → p.Heap → Pool p → ℕ × Pool p
  allocated size none h s = (0, record s { heap = h })
  allocated size (some b) h s = (
    b + bph_size p.config,
    record s {
      heap = h;
      mem = update s.mem (b + bph_size p.config) (zeroed size);
      bph = update s.bph b zero_bph;
    },
  )

  -- k_heap_alloc, and the memset of the block, which nobody else knows of yet.
  abbrev pub allocate : ℕ → Pool p → ℕ × Pool p
  allocate size s =
      let r = p.k_heap_alloc s.heap (add32 size (bph_size p.config)) no_wait in
      allocated size r.0 r.1 s

  -- The statistics handler that runs then: `ptr` is the address of the buffer, 0 for NULL.
  abbrev pub count_take : ℕ → ℕ → Pool p → Pool p
  count_take size ptr s =
      let b = ptr - bph_size p.config in
      if ptr == 0
      then record s {
        bps = if p.buffer_pool_stats then take_fail_stat_handler size s.bps else s.bps;
      }
      else record s {
        bph =
            if p.buffer_pool_stats
            then update s.bph b (take_bph p.config b size (s.bph b))
            else s.bph;
        bps = if p.buffer_pool_stats then take_stat_handler p.config size s.bps else s.bps;
      }

  -- The flag that buffer_pool_take sets when there is no buffer.
  abbrev pub note_failure : ℕ → Pool p → Pool p
  note_failure ptr s = if ptr == 0 && not s.take_failed then record s { take_failed = true } else s

  -- give_stat_handler, when it is compiled in and the pointer is not NULL.
  abbrev pub count_give : ℕ → Pool p → Pool p
  count_give ptr s =
      let b = ptr - bph_size p.config in
      if ptr == 0 then s else record s {
        bph = if p.buffer_pool_stats then update s.bph b (give_bph p.config b (s.bph b)) else s.bph;
        bps = if p.buffer_pool_stats then give_stat_handler (s.bph b) s.bps else s.bps;
      }

  -- k_heap_free
  abbrev pub release : ℕ → Pool p → Pool p
  release ptr s =
      if ptr == 0 then s else record s { heap = p.k_heap_free s.heap (ptr - bph_size p.config) }

twice : {A : Type 0} (f : ℕ → A) (b : ℕ) (x y : A) → update (update f b x) b y ≡ update f b y
twice f b x y = fun_ext (λ a. ground arith)

header_twice :
    (c : Kconfig) (stats : Bool) (f : ℕ → Bph) (b size : ℕ)
    → (if stats
        then update (update f b zero_bph) b (take_bph c b size (update f b zero_bph b))
        else update f b zero_bph)
      ≡ update f b (if stats then take_bph c b size zero_bph else zero_bph)
header_twice c true f b size =
    ap (λ (h : Bph). update (update f b zero_bph) b (take_bph c b size h))
      (update_self f b zero_bph)
    ∙ twice f b zero_bph (take_bph c b size zero_bph)
header_twice c false f b size = refl

module _ {p : Platform} where
  allocated-took :
      (size : ℕ) (o : Option ℕ) (h : p.Heap) (s : Pool p)
      → let r = allocated p size o h s in (r.0, count_take p size r.0 r.1) ≡ took p size o h s
  unfolding took
  allocated-took size none h s = refl
  allocated-took size (some b) h s =
      let counted = took p size (some b) h s in
      rw (bph_size_pos p.config b, block_of b (bph_size p.config))
        (ap (λ (g : ℕ → Bph). (b + bph_size p.config, record (counted.1) { bph = g }))
          (header_twice p.config p.buffer_pool_stats s.bph b size))

  -- In one go the parts are what the functions do.
  pub try_to_take_in_parts :
      (size : ℕ) (s : Pool p)
      → let r = allocate p size s in
        (r.0, count_take p size r.0 r.1) ≡ buffer_pool_try_to_take p size s
  unfolding buffer_pool_try_to_take buffer_pool_try_to_take_timeout
  try_to_take_in_parts size s = allocated-took size _ _ s

  pub take_in_parts :
      (size : ℕ) (s : Pool p)
      → let r = allocate p size s in
        (r.0, note_failure p r.0 (count_take p size r.0 r.1)) ≡ buffer_pool_take p size s
  unfolding buffer_pool_take
  take_in_parts size s =
      ap (λ (r : ℕ × Pool p). (r.0, note_failure p r.0 r.1)) (try_to_take_in_parts size s)
      ∙ if_elim
          (λ (x : Pool p). ((buffer_pool_try_to_take p size s).0, x) ≡ buffer_pool_take p size s)
          ((buffer_pool_try_to_take p size s).0 == 0
            && not (buffer_pool_try_to_take p size s).1.take_failed)
          (λ e. rw e refl) (λ e. rw e refl)

  pub free_in_parts :
      (ptr : ℕ) (s : Pool p) → release p ptr (count_give p ptr s) ≡ buffer_pool_free p ptr s
  unfolding buffer_pool_free
  free_in_parts ptr s =
      if_elim (λ (x : Pool p). x ≡ buffer_pool_free p ptr s) (ptr == 0) (λ e. rw e refl)
        (λ e. rw e refl)

  allocated-Takes :
      (size : ℕ) (o : Option ℕ) (h : p.Heap) (s : Pool p)
      → ((b : ℕ)
          → o ≡ some b
          → (p.live s.heap b ≡ false)
            × ((a : ℕ) → p.live h a ≡ (if a == b then true else p.live s.heap a)))
      → (o ≡ none → (a : ℕ) → p.live h a ≡ p.live s.heap a)
      → Takes size s (allocated p size o h s)
  allocated-Takes size none h s got failed =
      inl (refl, record { held = failed refl; written = refl })
  allocated-Takes size (some b) h s got failed =
      inr (b, refl, record { fresh = (got b refl).0; held = (got b refl).1; written = refl })

  pub allocate-Takes : (size : ℕ) (s : Pool p) → Takes size s (allocate p size s)
  allocate-Takes size s =
      allocated-Takes size _ _ s
        (λ b e. (p.alloc_fresh s.heap _ _ b e, p.alloc_live s.heap _ _ b e))
        (p.alloc_none s.heap _ _)

  -- The heap and the messages are the same.
  abbrev pub Beside : Pool p → Pool p → Type 0
  Beside s s' = (s'.heap ≡ s.heap) × (s'.mem ≡ s.mem)

  pub count_take-Beside : (size ptr : ℕ) (s : Pool p) → Beside s (count_take p size ptr s)
  count_take-Beside size ptr s =
      if_elim (Beside s) (ptr == 0) (λ _. (refl, refl)) (λ _. (refl, refl))

  pub note_failure-Beside : (ptr : ℕ) (s : Pool p) → Beside s (note_failure p ptr s)
  note_failure-Beside ptr s =
      if_elim (Beside s) (ptr == 0 && not s.take_failed) (λ _. (refl, refl)) (λ _. (refl, refl))

  pub count_give-Beside : (ptr : ℕ) (s : Pool p) → Beside s (count_give p ptr s)
  count_give-Beside ptr s = if_elim (Beside s) (ptr == 0) (λ _. (refl, refl)) (λ _. (refl, refl))

  pub release-books :
      (ptr : ℕ) (s : Pool p) → ((release p ptr s).bph ≡ s.bph) × ((release p ptr s).bps ≡ s.bps)
  release-books ptr s =
      if_elim (λ (x : Pool p). (x.bph ≡ s.bph) × (x.bps ≡ s.bps)) (ptr == 0) (λ _. (refl, refl))
        (λ _. (refl, refl))

  pub note_failure-books :
      (ptr : ℕ) (s : Pool p)
      → ((note_failure p ptr s).bph ≡ s.bph) × ((note_failure p ptr s).bps ≡ s.bps)
  note_failure-books ptr s =
      if_elim (λ (x : Pool p). (x.bph ≡ s.bph) × (x.bps ≡ s.bps)) (ptr == 0 && not s.take_failed)
        (λ _. (refl, refl)) (λ _. (refl, refl))
