-- ===== src/Platform/Defs.antt =====
-- What the code uses of Zephyr (k_heap, k_msgq) and of the build configuration
-- (lib/framework/Kconfig), none of which the repository implements. A kernel object is an abstract
-- state, and each call takes the state to the next one. The laws are the documented behaviour.

use zephyr_project.Prelude.{
  ℕ, ◌<◌, ◌≤◌, ◌≡◌, Bool, true, false, Option, none, some, List, [], ◌∷◌, ◌++◌, ◌==◌, if◌then◌else◌,
  length,
}
use zephyr_project.Prelude.Int.{ℤ, is_zero}

-- A k_timeout_t: return at once, wait without a limit, or wait for some ticks.
pub data Timeout : Type 0 where
  no_wait forever : Timeout
  ticks : ℕ → Timeout

-- The options of lib/framework/Kconfig that change the code.
pub record Kconfig : Type 0 where
  pub buffer_pool_size : ℕ
  pub buffer_pool_stats : Bool
  pub buffer_pool_window_size : ℕ
  pub buffer_pool_check_double_free : Bool

pub record Platform : Type 1 where
  pub config : Kconfig
  pub open config use *
  -- k_heap: the allocator's state, and which addresses begin an allocated block.
  pub Heap : Type 0
  pub k_heap_alloc : Heap → ℕ → Timeout → Option ℕ × Heap
  pub k_heap_free : Heap → ℕ → Heap
  pub live : Heap → ℕ → Bool
  pub alloc_fresh :
      (h : Heap) (n : ℕ) (t : Timeout) (b : ℕ) → (k_heap_alloc h n t).0 ≡ some b → live h b ≡ false
  pub alloc_live :
      (h : Heap) (n : ℕ) (t : Timeout) (b : ℕ)
      → (k_heap_alloc h n t).0 ≡ some b
      → (a : ℕ) → live (k_heap_alloc h n t).1 a ≡ (if a == b then true else live h a)
  pub alloc_none :
      (h : Heap) (n : ℕ) (t : Timeout)
      → (k_heap_alloc h n t).0 ≡ none
      → (a : ℕ) → live (k_heap_alloc h n t).1 a ≡ live h a
  -- Zephyr promises nothing of a k_heap_free of an address that begins no allocated block. Here the
  -- record of what is allocated is then as before.
  pub free_live :
      (h : Heap) (b a : ℕ) → live (k_heap_free h b) a ≡ (if a == b then false else live h a)
  -- k_msgq: a queue of pointers with its capacity, and the pointers that it holds, oldest first.
  pub Msgq : Type 0
  pub k_msgq_put : Msgq → ℕ → Timeout → ℤ × Msgq
  pub k_msgq_get : Msgq → Timeout → ℤ × ℕ × Msgq
  pub contents : Msgq → List ℕ
  pub max_msgs : Msgq → ℕ
  pub k_msgq_num_used_get : Msgq → ℕ
  pub num_used : (q : Msgq) → k_msgq_num_used_get q ≡ length (contents q)
  pub put_ok :
      (q : Msgq) (p : ℕ) (t : Timeout)
      → is_zero (k_msgq_put q p t).0 ≡ true
      → contents (k_msgq_put q p t).1 ≡ contents q ++ p ∷ []
  pub put_refused :
      (q : Msgq) (p : ℕ) (t : Timeout)
      → is_zero (k_msgq_put q p t).0 ≡ false
      → contents (k_msgq_put q p t).1 ≡ contents q
  pub put_room :
      (q : Msgq) (p : ℕ) (t : Timeout)
      → length (contents q) < max_msgs q
      → is_zero (k_msgq_put q p t).0 ≡ true
  pub put_full :
      (q : Msgq) (p : ℕ)
      → max_msgs q ≤ length (contents q)
      → is_zero (k_msgq_put q p no_wait).0 ≡ false
  pub get_cons :
      (q : Msgq) (t : Timeout) (p : ℕ) (ps : List ℕ)
      → contents q ≡ p ∷ ps
      → (is_zero (k_msgq_get q t).0 ≡ true)
        × ((k_msgq_get q t).1 ≡ p)
        × (contents (k_msgq_get q t).2 ≡ ps)
  pub get_nil :
      (q : Msgq)
      → contents q ≡ []
      → (is_zero (k_msgq_get q no_wait).0 ≡ false) × (contents (k_msgq_get q no_wait).2 ≡ [])
