-- ===== src/Framework/BufferPool/Heap.antt =====
-- What taking and freeing a buffer does to the heap and to the memory (buffer_pool.c).
use zephyr_project.Prelude.{
  ℕ, ◌+◌, ◌-◌, ◌≡◌, refl, ◌⊎◌, inl, inr, true, false, Option, none, some, arith, ◌==◌,
  if◌then◌else◌, update, Bool-cases, ◌&&◌, not,
}
use zephyr_project.Platform.{Timeout, no_wait, Kconfig, Platform}
use zephyr_project.Framework.BufferPool.{
  Pool, bph_size, zeroed, took, buffer_pool_try_to_take_timeout, buffer_pool_try_to_take,
  buffer_pool_take, buffer_pool_free,
}

pub bph_size_pos : (c : Kconfig) (b : ℕ) → (b + bph_size c == 0) ≡ false
unfolding bph_size
bph_size_pos c b = ground arith

pub block_of : (b k : ℕ) → b + k - k ≡ b
block_of b k = omega arith

module _ {p : Platform} where
  -- Block `b` is new, the only change of the heap, and its buffer holds zeros.
  pub record Taken (size b : ℕ) (s s' : Pool p) : Type 0 where
    pub fresh : p.live s.heap b ≡ false
    pub held : (a : ℕ) → p.live s'.heap a ≡ (if a == b then true else p.live s.heap a)
    pub written : s'.mem ≡ update s.mem (b + bph_size p.config) (zeroed size)

  pub record Refused (s s' : Pool p) : Type 0 where
    pub held : (a : ℕ) → p.live s'.heap a ≡ p.live s.heap a
    pub written : s'.mem ≡ s.mem

  -- Either NULL and no change, or a fresh zeroed buffer.
  abbrev pub Takes : ℕ → Pool p → ℕ × Pool p → Type 0
  Takes size s r =
      ((r.0 ≡ 0) × Refused s r.1) ⊎ ((b : ℕ) × (r.0 ≡ b + bph_size p.config) × Taken size b s r.1)

  took-Takes :
      (size : ℕ) (o : Option ℕ) (h : p.Heap) (s : Pool p)
      → ((b : ℕ)
          → o ≡ some b
          → (p.live s.heap b ≡ false)
            × ((a : ℕ) → p.live h a ≡ (if a == b then true else p.live s.heap a)))
      → (o ≡ none → (a : ℕ) → p.live h a ≡ p.live s.heap a)
      → Takes size s (took p size o h s)
  unfolding took
  took-Takes size none h s got failed = inl (refl, record { held = failed refl; written = refl })
  took-Takes size (some b) h s got failed =
      inr (b, refl, record { fresh = (got b refl).0; held = (got b refl).1; written = refl })

  pub try_to_take_timeout-Takes :
      (size : ℕ) (t : Timeout) (s : Pool p)
      → Takes size s (buffer_pool_try_to_take_timeout p size t s)
  unfolding buffer_pool_try_to_take_timeout
  try_to_take_timeout-Takes size t s =
      took-Takes size _ _ s (λ b e. (p.alloc_fresh s.heap _ t b e, p.alloc_live s.heap _ t b e))
        (p.alloc_none s.heap _ t)

  pub try_to_take-Takes : (size : ℕ) (s : Pool p) → Takes size s (buffer_pool_try_to_take p size s)
  unfolding buffer_pool_try_to_take
  try_to_take-Takes size s = try_to_take_timeout-Takes size no_wait s

  -- `buffer_pool_take` returns NULL and leaves the heap's blocks and the memory as they were, or it
  -- returns the address behind the header of a fresh block, the only change of the blocks, and the
  -- only change of the memory is that this buffer holds zeros.
  pub buffer_pool_take-Takes : (size : ℕ) (s : Pool p) → Takes size s (buffer_pool_take p size s)
  unfolding buffer_pool_take
  buffer_pool_take-Takes size s =
      let r = buffer_pool_try_to_take p size s in
      elim (Bool-cases (r.0 == 0 && not (r.1).take_failed)) [
        | inl e ↦ rw e (elim (try_to_take-Takes size s) [
          | inl (z, x) ↦ inl (z, record { held = x.held; written = x.written })
          | inr (b, z, x) ↦
              inr (b, z, record { fresh = x.fresh; held = x.held; written = x.written })
        ])
        | inr e ↦ rw e (try_to_take-Takes size s)
      ]

  -- Freeing a buffer releases its block and nothing else.
  pub buffer_pool_free_live :
      (b a : ℕ) (s : Pool p)
      → p.live (buffer_pool_free p (b + bph_size p.config) s).heap a
        ≡ (if a == b then false else p.live s.heap a)
  unfolding buffer_pool_free
  buffer_pool_free_live b a s =
      rw (bph_size_pos p.config b, block_of b (bph_size p.config)) (p.free_live s.heap b a)

  pub buffer_pool_free-mem : (ptr a : ℕ) (s : Pool p) → (buffer_pool_free p ptr s).mem a ≡ s.mem a
  unfolding buffer_pool_free
  buffer_pool_free-mem ptr a s = ground arith
