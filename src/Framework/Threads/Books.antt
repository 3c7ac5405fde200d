-- ===== src/Framework/Threads/Books.antt =====
-- The books of the pool while threads are inside its functions: a block that is in use is counted by
-- the statistics, or some thread stands between the heap's call and the statistics for it.
pub mod Sections
pub mod Course
use zephyr_project.Framework.BufferPool.Blocks.{erase, is_some, lookup, lookup-erase, found}
use zephyr_project.Framework.BufferPool.Sums.{
  Sums, clear-Sums, count_give-Sums, count_take-Sums, fail-Sums, same-Sums, Accounts-Sums,
  Sums-Accounts,
}
use zephyr_project.Framework.Effect.{buffer_of, live}
use zephyr_project.Framework.Threads.{
  Now, Prog, Taking, calling, counting, noting, releasing, by_take, by_try, call_timer, done, exec,
  free_buffer, get_at, get_from, on_app, put_at, put_msg, read_msg, take_buffer, write_msg,
}
use zephyr_project.Framework.Threads.Interleaving.{Inv, Threads, IsSafeCode, Turns-Inv}
use zephyr_project.Framework.Threads.Safety.{SafeNow}
use zephyr_project.Framework.World.{Env, World, set_pool, get_msg, log_timer, set_msg}
use zephyr_project.Prelude.{
  Bool, Bool-cases, List, false, inl, inr, none, true, update, ℕ, ◌==◌, ◌≡◌, ◌≢◌, ◌⊎◌, arith,
  ==_iff, ==_ne, ==_refl, sym, ◌∙◌, Option, if◌then◌else◌, some, ◌<◌, ◌^◌, Option-cases, ap, refl,
  ◌∷◌,
}
use zephyr_project.Framework.BufferPool.Heap.{bph_size_pos}
use zephyr_project.Framework.Threads.Holding.{hands, idle, in_hand}
use zephyr_project.Framework.Threads.Races.{block_of_buffer}
use zephyr_project.Framework.BufferPool.Parts.{
  count_give, count_take, release, allocated, count_give-Beside, count_take-Beside, release-books,
  allocate, note_failure, note_failure-Beside, note_failure-books,
}
use zephyr_project.Framework.Ownership.{is_owned}
use zephyr_project.Framework.Threads.Stepping.{release-Released}
use Prim.{tt}
use Prim.Native.Char.{code}
use zephyr_project.Framework.BufferPool.Accounts.{Accounts}

module _ {e : Env} where
  -- Where the thread stands, the block `b` is in use and not counted.
  abbrev pub pending : Now e → ℕ → Bool
  pending (counting t n p c) b = p == buffer_of e b
  pending (releasing p c) b = p == buffer_of e b
  pending _ b = false

  -- `blocks` are the blocks that the statistics count.
  pub record Books (s : Threads e) (blocks : List (ℕ × ℕ)) : Type 0 where
    pub sums : Sums {p = e.platform} s.world.pool blocks
    pub in_use : (b : ℕ) → is_some (lookup b blocks) ≡ true → live s.world b ≡ true
    pub waits : (j b : ℕ) → pending (s.prog j) b ≡ true → lookup b blocks ≡ none
    pub waited :
        (b : ℕ)
        → live s.world b ≡ true
        → lookup b blocks ≡ none
        → (j : ℕ) × (pending (s.prog j) b ≡ true)

  -- Whom a thread's place concerns, it holds.
  pub pending-held :
      (held : ℕ → Bool) (c : Now e) (b : ℕ) → SafeNow held c → pending c b ≡ true → held b ≡ true
  pending-held held (calling c) b safe h = cc
  pending-held held (counting t n p c) b (small, inl null, rest) h =
      absurd (ground (arith, null, h, bph_size_pos e.platform.config b))
  pending-held held (counting t n p c) b (small, inr (b', is_p, mine), rest) h =
      let same : b ≡ b' = block_of_buffer e b b' (sym ((==_iff _ _).0 h) ∙ is_p) in rw same mine
  pending-held held (noting p c) b safe h = cc
  pending-held held (releasing p c) b (b', is_p, mine, rest) h =
      let same : b ≡ b' = block_of_buffer e b b' (sym ((==_iff _ _).0 h) ∙ is_p) in rw same mine

  pub same_agent :
      {s : Threads e} (v : Inv s) (i j b : ℕ)
      → hands v.owner v.agent i b ≡ true
      → hands v.owner v.agent j b ≡ true
      → j ≡ i
  same_agent v i j b mine theirs =
      sym ((==_iff _ _).0 (in_hand (v.owner b) _ theirs).1)
      ∙ (==_iff _ _).0 (in_hand (v.owner b) _ mine).1

  module _ {s : Threads e} (i : ℕ) (blocks : List (ℕ × ℕ)) (k : Books s blocks) where
    -- Thread `i` moves to `c'`, and others stay where they are.
    pub moved-Books :
        (c' : Now e) (w' : World e) (blocks' : List (ℕ × ℕ))
        → Sums {p = e.platform} w'.pool blocks'
        → ((a : ℕ) → is_some (lookup a blocks') ≡ true → live w' a ≡ true)
        → ((j a : ℕ) → j ≢ i → pending (s.prog j) a ≡ true → lookup a blocks' ≡ none)
        → ((a : ℕ) → pending c' a ≡ true → lookup a blocks' ≡ none)
        → ((a : ℕ)
            → live w' a ≡ true
            → lookup a blocks' ≡ none
            → (pending c' a ≡ true) ⊎ ((j : ℕ) × (j ≢ i) × (pending (s.prog j) a ≡ true)))
        → Books (record { world = w'; prog = update s.prog i c' }) blocks'
    moved-Books c' w' blocks' sums in_use' theirs mine left = record {
      sums = sums;
      in_use = in_use';
      waits = λ j a. elim (Bool-cases (j == i)) [
        | inl same ↦ rw same (mine a)
        | inr other ↦ rw other (theirs j a (λ h. ground (arith, h)))
      ];
      waited = λ a alive none_. elim (left a alive none_) [
        | inl h ↦ (i, rw (==_refl i) h)
        | inr (j, other, h) ↦ (j, rw (==_ne j i other) h)
      ];
    }

    -- Who waits for a block, when thread `i` does not.
    pub waiting_other :
        (a : ℕ)
        → pending (s.prog i) a ≡ false
        → live s.world a ≡ true
        → lookup a blocks ≡ none
        → (j : ℕ) × (j ≢ i) × (pending (s.prog j) a ≡ true)
    waiting_other a idle alive none_ =
        let (j, h) = k.waited a alive none_ in
        (j, λ same. let p : pending (s.prog i) a ≡ true = rw⁻¹ same h in cc, h)

    pub quiet-Books :
        (c' : Now e) (w' : World e)
        → ((a : ℕ) → pending (s.prog i) a ≡ false)
        → ((a : ℕ) → pending c' a ≡ false)
        → ((a : ℕ) → live w' a ≡ live s.world a)
        → Sums {p = e.platform} w'.pool blocks
        → Books (record { world = w'; prog = update s.prog i c' }) blocks
    quiet-Books c' w' idle idle' heap sums =
        moved-Books c' w' blocks sums (λ a h. heap a ∙ k.in_use a h) (λ j a other h. k.waits j a h)
          (λ a h. let n = idle' a in cc)
          (λ a alive none_. inr (waiting_other a (idle a) (sym (heap a) ∙ alive) none_))
