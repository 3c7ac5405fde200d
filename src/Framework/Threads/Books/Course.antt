-- ===== src/Framework/Threads/Books/Course.antt =====
-- The books over any number of turns, and when all threads are done.
use zephyr_project.Framework.Threads.Books.{Books, pending, quiet-Books}
use zephyr_project.Framework.Threads.Books.Sections.{
  Stepped, allocated-Books, count-Books, give-Books, release-Books,
}
use zephyr_project.Framework.BufferPool.Blocks.{lookup}
use zephyr_project.Framework.BufferPool.Sums.{fail-Sums, same-Sums, Accounts-Sums, Sums-Accounts}
use zephyr_project.Framework.Effect.{live}
use zephyr_project.Framework.Threads.{
  Now, Prog, Taking, calling, counting, noting, releasing, by_take, by_try, call_timer, done, exec,
  free_buffer, get_at, get_from, on_app, put_at, put_msg, read_msg, take_buffer, write_msg,
}
use zephyr_project.Framework.Threads.Interleaving.{
  Turn, Turns, here, later, moves, starts, Inv, Threads, IsSafeCode, Turns, Turns-Inv,
}
use zephyr_project.Framework.Threads.Safety.{SafeNow}
use zephyr_project.Framework.World.{Env, World, set_pool, get_msg, log_timer, set_msg}
use zephyr_project.Prelude.{
  Bool-cases, List, false, inl, inr, true, ℕ, ◌≡◌, arith, ◌∙◌, Option-cases, ap, refl,
}
use zephyr_project.Framework.BufferPool.Heap.{bph_size_pos}
use zephyr_project.Framework.Threads.Holding.{hands, idle}
use zephyr_project.Framework.BufferPool.Parts.{
  count_take, allocate, note_failure, note_failure-Beside, note_failure-books,
}
use Prim.{tt}
use Prim.Native.Char.{code}
use zephyr_project.Framework.BufferPool.Accounts.{Accounts}

module _ {e : Env} where
  module _ {s : Threads e} (stats : e.platform.buffer_pool_stats ≡ true) (v : Inv s) (i : ℕ)
      (blocks : List (ℕ × ℕ)) (k : Books s blocks) where
    -- A step before and after which the thread waits for no block, and that leaves the pool's blocks,
    -- headers and statistics as they are.
    plain-Books :
        (c c' : Now e) (w' : World e)
        → s.prog i ≡ c
        → ((a : ℕ) → pending c a ≡ false)
        → ((a : ℕ) → pending c' a ≡ false)
        → ((a : ℕ) → live w' a ≡ live s.world a)
        → w'.pool.bph ≡ s.world.pool.bph
        → w'.pool.bps ≡ s.world.pool.bps
        → Stepped {s = s} stats v i blocks k (c', w')
    plain-Books c c' w' is_c idle idle' heap headers stats' = (
      blocks,
      quiet-Books i blocks k c' w' (λ a. rw is_c (idle a)) idle' heap
          (same-Sums w'.pool blocks headers stats' k.sums),
    )

    counting-Books :
        (t : Taking) (n p : ℕ) (rest : Prog e Unit) (c' : Now e)
        → s.prog i ≡ counting t n p rest
        → ((a : ℕ) → pending c' a ≡ false)
        → SafeNow (hands v.owner v.agent i) (counting t n p rest)
        → Stepped {s = s} stats v i blocks k
            (c', set_pool (count_take e.platform n p s.world.pool) s.world)
    counting-Books t n p rest c' is_c idle' (small, inl null, safe) = rw null (
      blocks,
      quiet-Books i blocks k c' _
          (λ a. rw (is_c, null) (ground (arith, bph_size_pos e.platform.config a))) idle'
          (λ a. refl) (fail-Sums stats n s.world.pool blocks k.sums),
    )
    counting-Books t n p rest c' is_c idle' (small, inr (b, is_p, mine), safe) =
        rw is_p (count-Books stats v i blocks k b n c' small (λ a. rw (is_c, is_p) refl) idle' mine)

    step-Books :
        (c : Now e)
        → s.prog i ≡ c
        → SafeNow (hands v.owner v.agent i) c
        → Stepped {s = s} stats v i blocks k (exec c s.world)
    step-Books (calling (done a)) is_c safe =
        plain-Books (calling (done a)) (calling (done a)) s.world is_c (λ b. refl) (λ b. refl)
          (λ b. refl) refl refl
    step-Books (calling (take_buffer t n rest)) is_c safe =
        let r = allocate e.platform n s.world.pool in
        allocated-Books stats v i blocks k t n (rest r.0) _ _ (λ a. rw is_c refl)
          (λ b h. (
            e.platform.alloc_fresh s.world.pool.heap _ _ b h,
            e.platform.alloc_live s.world.pool.heap _ _ b h,
          ))
          (e.platform.alloc_none s.world.pool.heap _ _)
    step-Books (calling (read_msg p rest)) is_c safe =
        plain-Books _ (calling (rest (get_msg s.world p))) s.world is_c (λ b. refl) (λ b. refl)
          (λ b. refl) refl refl
    step-Books (calling (write_msg p m rest)) is_c safe =
        plain-Books _ (calling rest) (set_msg p m s.world) is_c (λ b. refl) (λ b. refl) (λ b. refl)
          refl refl
    step-Books (calling (put_msg q p t rest)) is_c safe =
        let r = put_at q p t s.world in
        plain-Books _ (calling (rest r.0)) r.1 is_c (λ b. refl) (λ b. refl) (λ b. refl) refl refl
    step-Books (calling (get_from q t rest)) is_c safe =
        let r = get_at q t s.world in
        plain-Books _ (calling (rest r.0 r.1)) r.2 is_c (λ b. refl) (λ b. refl) (λ b. refl) refl
          refl
    step-Books (calling (free_buffer p rest)) is_c (b, is_p, mine, safe) =
        rw is_p (give-Books stats v i blocks k b rest (λ a. rw is_c refl) mine)
    step-Books (calling (call_timer x rest)) is_c safe =
        plain-Books _ (calling rest) (log_timer x s.world) is_c (λ b. refl) (λ b. refl) (λ b. refl)
          refl refl
    step-Books (calling (on_app g rest)) is_c safe =
        plain-Books _ (calling (rest s.world.app)) (record (s.world) { app = g s.world.app }) is_c
          (λ b. refl) (λ b. refl) (λ b. refl) refl refl
    step-Books (counting by_take n p rest) is_c safe =
        counting-Books by_take n p rest (noting p rest) is_c (λ a. refl) safe
    step-Books (counting by_try n p rest) is_c safe =
        counting-Books by_try n p rest (calling rest) is_c (λ a. refl) safe
    step-Books (noting p rest) is_c safe =
        let s' = note_failure e.platform p s.world.pool in
        let same = note_failure-books {p = e.platform} p s.world.pool in
        plain-Books (noting p rest) (calling rest) (set_pool s' s.world) is_c (λ b. refl)
          (λ b. refl)
          (λ b.
            ap (λ (h : e.platform.Heap). e.platform.live h b)
              (note_failure-Beside {p = e.platform} p s.world.pool).0)
          same.0 same.1
    step-Books (releasing p rest) is_c (b, is_p, mine, safe) =
        rw is_p (release-Books stats v i blocks k b rest (λ a. rw (is_c, is_p) refl))

  module _ {Code : ℕ → World e → Prog e Unit → Type 0} (code_is_safe : IsSafeCode Code)
      (stats : e.platform.buffer_pool_stats ≡ true) where
    Turn-Books :
        {s t : Threads e} (blocks : List (ℕ × ℕ))
        → Inv s
        → Books s blocks
        → Turn Code s t
        → (blocks' : List (ℕ × ℕ)) × Books t blocks'
    Turn-Books {s} blocks v k (moves i can) =
        step-Books stats v i blocks k (s.prog i) refl (v.safe i)
    Turn-Books {s} blocks v k (starts i c ended code) =
        plain-Books stats v i blocks k (calling (done tt)) (calling c) s.world ended (λ b. refl)
          (λ b. refl) (λ b. refl) refl refl

    pub Turns-Books :
        {s t : Threads e} (blocks : List (ℕ × ℕ))
        → Inv s
        → Books s blocks
        → Turns Code s t
        → (blocks' : List (ℕ × ℕ)) × Books t blocks'
    Turns-Books blocks v k here = (blocks, k)
    Turns-Books blocks v k (later more last) =
        let (blocks', k') = Turns-Books blocks v k more in
        Turn-Books blocks' (Turns-Inv code_is_safe v more) k' last

  -- When no thread is inside its code, the books are those of the blocks in use.
  pub at_rest-Accounts :
      (s : Threads e) (blocks : List (ℕ × ℕ))
      → ((i : ℕ) → s.prog i ≡ calling (done tt))
      → Books s blocks
      → Accounts {p = e.platform} s.world.pool blocks
  at_rest-Accounts s blocks ended k =
      Sums-Accounts s.world.pool blocks
        (λ b. elim (Option-cases (lookup b blocks)) [
          | inl none_ ↦ elim (Bool-cases (live s.world b)) [
            | inl alive ↦
                let (j, waits) = k.waited b alive none_ in
                let idle : pending (s.prog j) b ≡ false = rw (ended j) refl in cc
            | inr free ↦ rw none_ free
          ]
          | inr (size, used) ↦ rw used (k.in_use b (rw used refl))
        ])
        k.sums

  pub Accounts-Books :
      (s : Threads e) (blocks : List (ℕ × ℕ))
      → ((i : ℕ) → s.prog i ≡ calling (done tt))
      → Accounts {p = e.platform} s.world.pool blocks
      → Books s blocks
  Accounts-Books s blocks ended k = record {
    sums = Accounts-Sums blocks k;
    in_use = λ b h. k.alive b ∙ h;
    waits = λ j b h. let idle : pending (s.prog j) b ≡ false = rw (ended j) refl in cc;
    waited = λ b alive none_. let h = k.alive b in absurd (ground (arith, h, alive, none_));
  }
