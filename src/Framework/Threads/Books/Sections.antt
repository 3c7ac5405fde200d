-- ===== src/Framework/Threads/Books/Sections.antt =====
-- The critical sections of buffer_pool.c, by what they do to the books.
use zephyr_project.Framework.Threads.Books.{
  Books, moved-Books, pending, pending-held, quiet-Books, same_agent, waiting_other,
}
use zephyr_project.Framework.BufferPool.Blocks.{erase, lookup, lookup-erase}
use zephyr_project.Framework.BufferPool.Sums.{
  clear-Sums, count_give-Sums, count_take-Sums, same-Sums,
}
use zephyr_project.Framework.Effect.{buffer_of, live}
use zephyr_project.Framework.Threads.{Now, Prog, Taking, calling, counting, releasing}
use zephyr_project.Framework.Threads.Interleaving.{Inv, Threads}
use zephyr_project.Framework.World.{Env, World, set_pool}
use zephyr_project.Prelude.{
  Bool-cases, List, false, inl, inr, none, true, update, ℕ, ◌==◌, ◌≡◌, arith, ==_iff, ==_refl, sym,
  ◌∙◌, Option, if◌then◌else◌, some, ◌<◌, ◌^◌, Option-cases, ap, refl, ◌∷◌,
}
use zephyr_project.Framework.BufferPool.Heap.{bph_size_pos}
use zephyr_project.Framework.Threads.Holding.{hands, idle, in_hand}
use zephyr_project.Framework.Threads.Races.{block_of_buffer}
use zephyr_project.Framework.BufferPool.Parts.{
  count_give, count_take, release, allocated, count_give-Beside, count_take-Beside, release-books,
}
use zephyr_project.Framework.Ownership.{is_owned}
use zephyr_project.Framework.Threads.Stepping.{release-Released}

module _ {e : Env} where
  module _ {s : Threads e} (stats : e.platform.buffer_pool_stats ≡ true) (v : Inv s) (i : ℕ)
      (blocks : List (ℕ × ℕ)) (k : Books s blocks) where
    -- The pool after a step of the thread, and the place where it stands then.
    abbrev pub Stepped : Now e × World e → Type 0
    Stepped r =
        (blocks' : List (ℕ × ℕ)) × Books (record { world = r.1; prog = update s.prog i r.0 })
          blocks'

    not_counted : (b : ℕ) → live s.world b ≡ false → lookup b blocks ≡ none
    not_counted b free = elim (Option-cases (lookup b blocks)) [
      | inl none_ ↦ none_
      | inr (size, used) ↦ let h = k.in_use b (rw used refl) in cc
    ]

    held_live : (b : ℕ) → hands v.owner v.agent i b ≡ true → live s.world b ≡ true
    held_live b mine = v.owned.alive b ∙ ap is_owned (in_hand (v.owner b) _ mine).0

    -- What a thread holds that stands elsewhere is counted.
    counted_here :
        (b : ℕ)
        → ((a : ℕ) → pending (s.prog i) a ≡ false)
        → hands v.owner v.agent i b ≡ true
        → (size : ℕ) × (lookup b blocks ≡ some size)
    counted_here b idle mine = elim (Option-cases (lookup b blocks)) [
      | inl none_ ↦
          let (j, other, waits) = waiting_other i blocks k b (idle b) (held_live b mine) none_ in
          absurd (other (same_agent v i j b mine (pending-held _ (s.prog j) b (v.safe j) waits)))
      | inr used ↦ used
    ]

    -- k_heap_alloc: a new block is in use, and waits for the statistics.
    pub allocated-Books :
        (t : Taking) (n : ℕ) (rest : Prog e Unit) (o : Option ℕ) (h : e.platform.Heap)
        → ((a : ℕ) → pending (s.prog i) a ≡ false)
        → ((b : ℕ)
            → o ≡ some b
            → (live s.world b ≡ false)
              × ((a : ℕ) → e.platform.live h a ≡ (if a == b then true else live s.world a)))
        → (o ≡ none → (a : ℕ) → e.platform.live h a ≡ live s.world a)
        → let r = allocated e.platform n o h s.world.pool in
          Stepped (counting t n r.0 rest, set_pool r.1 s.world)
    allocated-Books t n rest none h idle got failed = (
      blocks,
      quiet-Books i blocks k (counting t n 0 rest) _ idle
          (λ a. ground (arith, bph_size_pos e.platform.config a)) (failed refl)
          (same-Sums _ blocks refl refl k.sums),
    )
    allocated-Books t n rest (some b) h idle got failed =
        let (fresh, held) = got b refl in
        let new : lookup b blocks ≡ none = not_counted b fresh in
        (
          blocks,
          moved-Books i blocks k (counting t n (buffer_of e b) rest) _ blocks
              (clear-Sums s.world.pool h _ b blocks new k.sums)
              (λ a counted. ground (arith, held a, k.in_use a counted))
              (λ j a other waits. k.waits j a waits)
              (λ a placed.
                let same : b ≡ a = block_of_buffer e b a ((==_iff _ _).0 placed) in rw⁻¹ same new)
              (λ a alive none_. elim (Bool-cases (a == b)) [
                | inl same ↦ inl (ground (arith, same))
                | inr other ↦ inr (
                    waiting_other i blocks k a (idle a) (ground (arith, held a, alive, other))
                      none_)
              ]),
        )

    -- give_stat_handler: the block of the buffer is in use, and no longer counted.
    pub give-Books :
        (b : ℕ) (rest : Prog e Unit)
        → ((a : ℕ) → pending (s.prog i) a ≡ false)
        → hands v.owner v.agent i b ≡ true
        → Stepped (
          releasing (buffer_of e b) rest,
          set_pool (count_give e.platform (buffer_of e b) s.world.pool) s.world,
        )
    give-Books b rest idle mine =
        let (size, used) = counted_here b idle mine in
        let heap = λ (a : ℕ).
          ap (λ (h : e.platform.Heap). e.platform.live h a)
            ((count_give-Beside {p = e.platform} (buffer_of e b) s.world.pool).0) in
        let left : (a : ℕ)
            → lookup a (erase b blocks) ≡ (if a == b then none else lookup a blocks) =
          λ a. lookup-erase b a blocks k.sums.distinct in
        (
          erase b blocks,
          moved-Books i blocks k (releasing (buffer_of e b) rest) _ (erase b blocks)
              (count_give-Sums stats b size s.world.pool blocks used k.sums)
              (λ a counted. heap a ∙ ground (arith, left a, counted, k.in_use a))
              (λ j a other waits. ground (arith, left a, k.waits j a waits))
              (λ a placed.
                let same : b ≡ a = block_of_buffer e b a ((==_iff _ _).0 placed) in
                ground (arith, left a, same))
              (λ a alive none_. elim (Bool-cases (a == b)) [
                | inl same ↦ inl (ground (arith, same))
                | inr other ↦ inr (
                    waiting_other i blocks k a (idle a) (sym (heap a) ∙ alive)
                      (sym (left a ∙ rw other refl) ∙ none_))
              ]),
        )

    -- take_stat_handler: the new block is counted.
    pub count-Books :
        (b n : ℕ) (c' : Now e)
        → n < 2 ^ 16
        → ((a : ℕ) → pending (s.prog i) a ≡ (buffer_of e b == buffer_of e a))
        → ((a : ℕ) → pending c' a ≡ false)
        → hands v.owner v.agent i b ≡ true
        → Stepped (c', set_pool (count_take e.platform n (buffer_of e b) s.world.pool) s.world)
    count-Books b n c' small placed idle' mine =
        let heap = λ (a : ℕ).
          ap (λ (h : e.platform.Heap). e.platform.live h a)
            ((count_take-Beside {p = e.platform} n (buffer_of e b) s.world.pool).0) in
        let new : lookup b blocks ≡ none = k.waits i b (placed b ∙ ==_refl (buffer_of e b)) in
        (
          (b, n) ∷ blocks,
          moved-Books i blocks k c' _ ((b, n) ∷ blocks)
              (count_take-Sums stats n b s.world.pool blocks small new k.sums)
              (λ a counted. heap a ∙ ground (arith, counted, k.in_use a, held_live b mine))
              (λ j a other waits. elim (Bool-cases (b == a)) [
                | inl same ↦
                    let is_b : b ≡ a = (==_iff _ _).0 same in
                    absurd (
                      other (
                        same_agent v i j b mine
                          (rw is_b (pending-held _ (s.prog j) a (v.safe j) waits))))
                | inr differ ↦ rw differ (k.waits j a waits)
              ])
              (λ a h. let n = idle' a in cc)
              (λ a alive none_. elim (Bool-cases (b == a)) [
                | inl same ↦ absurd (ground (arith, same, none_))
                | inr differ ↦ inr (
                    waiting_other i blocks k a (placed a ∙ ground (arith, differ))
                      (sym (heap a) ∙ alive) (rw differ at none_))
              ]),
        )

    -- k_heap_free: the block is no longer in use.
    pub release-Books :
        (b : ℕ) (rest : Prog e Unit)
        → ((a : ℕ) → pending (s.prog i) a ≡ (buffer_of e b == buffer_of e a))
        → Stepped (calling rest, set_pool (release e.platform (buffer_of e b) s.world.pool) s.world)
    release-Books b rest placed =
        let new : lookup b blocks ≡ none = k.waits i b (placed b ∙ ==_refl (buffer_of e b)) in
        let held = (release-Released b s.world).held in
        (
          blocks,
          moved-Books i blocks k (calling rest) _ blocks
              (same-Sums _ blocks (release-books (buffer_of e b) s.world.pool).0
                (release-books (buffer_of e b) s.world.pool).1 k.sums)
              (λ a counted. ground (arith, held a, k.in_use a counted, new, counted))
              (λ j a other waits. k.waits j a waits) (λ a h. cc)
              (λ a alive none_. elim (Bool-cases (a == b)) [
                | inl same ↦ absurd (ground (arith, held a, alive, same))
                | inr other ↦ inr (
                    waiting_other i blocks k a (placed a ∙ ground (arith, other))
                      (ground (arith, held a, alive, other)) none_)
              ]),
        )
