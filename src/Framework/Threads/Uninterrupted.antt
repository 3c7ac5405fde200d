-- ===== src/Framework/Threads/Uninterrupted.antt =====
-- A thread that runs while no other does, as a sequence of turns of all the threads.
use Prim.{tt}
use zephyr_project.Framework.Threads.{
  Prog, call_timer, done, exec, free_buffer, get_from, on_app, put_msg, read_msg, run_alone,
  take_buffer, write_msg, get_at, put_at, taken_by, Now, by_take, by_try, calling, counting, noting,
  releasing,
}
use zephyr_project.Framework.Threads.Interleaving.{Threads, Turn, Turns, here, later, moves, starts}
use zephyr_project.Framework.Threads.Stepping.{CanRun}
use zephyr_project.Framework.World.{Env, World, free_msg, get_msg, log_timer, set_msg, set_pool}
use zephyr_project.Prelude.{ℕ, ◌≡◌, ◌≢◌, ◌∙◌, refl, update, update_self, update_ne}
use mathlib.Core.Path.{subst}
use Prim.Native.Char.{code}
use zephyr_project.Framework.BufferPool.{Pool}
use zephyr_project.Framework.BufferPool.Parts.{
  allocate, count_give, count_take, free_in_parts, note_failure, release, take_in_parts,
  try_to_take_in_parts,
}

module _ {e : Env} where
  -- The program finds a message wherever it waits for one, when nothing runs in between.
  abbrev pub NeverWaits : Prog e Unit → World e → Type 0
  NeverWaits (done a) w = Unit
  NeverWaits (take_buffer t n k) w = let r = taken_by t n w in NeverWaits (k r.0) (set_pool r.1 w)
  NeverWaits (read_msg p k) w = NeverWaits (k (get_msg w p)) w
  NeverWaits (write_msg p m k) w = NeverWaits k (set_msg p m w)
  NeverWaits (put_msg q p t k) w = let r = put_at q p t w in NeverWaits (k r.0) r.1
  NeverWaits (get_from q t k) w =
      let r = get_at q t w in CanRun w (calling (get_from q t k)) × NeverWaits (k r.0 r.1) r.2
  NeverWaits (free_buffer p k) w = NeverWaits k (free_msg p w)
  NeverWaits (call_timer c k) w = NeverWaits k (log_timer c w)
  NeverWaits (on_app g k) w = NeverWaits (k w.app) (record w { app = g w.app })

  module _ (Code : ℕ → World e → Prog e Unit → Type 0) (i : ℕ) where
    -- Turns lead from `s` to threads of which only thread `i` has moved on: it is done, and the state is
    -- `w`.
    abbrev pub Completes : Threads e → World e → Type 0
    Completes s w =
        (t : Threads e) × Turns Code s t
        × (t.world ≡ w)
        × (t.prog i ≡ calling (done tt))
        × ((j : ℕ) → j ≢ i → t.prog j ≡ s.prog j)

    abbrev moved_on : Now e → World e → Threads e → Threads e
    moved_on c w s = record { world = w; prog = update s.prog i c }

    earlier : {s t u : Threads e} → Turn Code s t → Turns Code t u → Turns Code s u
    earlier first here = later here first
    earlier first (later rest last) = later (earlier first rest) last

    prepend :
        (c : Now e) (v w : World e) (s : Threads e)
        → Turn Code s (moved_on c v s)
        → Completes (moved_on c v s) w
        → Completes s w
    prepend c v w s turn (t, turns, is_w, ended, others) = (
      t,
      earlier turn turns,
      is_w,
      ended,
      λ j other. others j other ∙ update_ne s.prog i j c other,
    )

    move_first :
        (c : Now e) (s : Threads e)
        → s.prog i ≡ c
        → CanRun s.world c
        → Turn Code s (moved_on (exec c s.world).0 (exec c s.world).1 s)
    move_first c s is_c can =
        subst
          (λ (d : Now e).
            CanRun s.world d → Turn Code s (moved_on (exec d s.world).0 (exec d s.world).1 s))
          is_c (moves i) can

    one_more :
        (c : Now e) (s : Threads e) (w : World e)
        → s.prog i ≡ c
        → CanRun s.world c
        → let d = (exec c s.world).0 in
          let u = moved_on d (exec c s.world).1 s in (u.prog i ≡ d → Completes u w) → Completes s w
    one_more c s w is_c can rest =
        let d = (exec c s.world).0 in
        prepend d (exec c s.world).1 w s (move_first c s is_c can) (rest (update_self s.prog i d))

    -- A program that never waits is carried out by turns of its own thread.
    pub carry_out :
        (c : Prog e Unit) (s : Threads e)
        → s.prog i ≡ calling c
        → NeverWaits c s.world
        → Completes s (run_alone c s.world).1
    carry_out (done a) s is_c never = (s, here, refl, is_c, λ j other. refl)
    carry_out (take_buffer by_take n k) s is_c never =
        let r = allocate e.platform n s.world.pool in
        let counted = count_take e.platform n r.0 r.1 in
        let noted = note_failure e.platform r.0 counted in
        let s₁ = moved_on (counting by_take n r.0 (k r.0)) (set_pool r.1 s.world) s in
        let s₂ = moved_on (noting r.0 (k r.0)) (set_pool counted s.world) s₁ in
        let s₃ = moved_on (calling (k r.0)) (set_pool noted s.world) s₂ in
        let same = take_in_parts {p = e.platform} n s.world.pool in
        subst
          (λ (x : ℕ × Pool e.platform).
            NeverWaits (k x.0) (set_pool x.1 s.world)
            → Completes s (run_alone (k x.0) (set_pool x.1 s.world)).1)
          same
          (λ go. one_more (calling (take_buffer by_take n k)) s _ is_c tt (λ h₁.
            one_more (counting by_take n r.0 (k r.0)) s₁ _ h₁ tt
              (λ h₂. one_more (noting r.0 (k r.0)) s₂ _ h₂ tt (λ h₃. carry_out (k r.0) s₃ h₃ go))))
          never
    carry_out (take_buffer by_try n k) s is_c never =
        let r = allocate e.platform n s.world.pool in
        let counted = count_take e.platform n r.0 r.1 in
        let s₁ = moved_on (counting by_try n r.0 (k r.0)) (set_pool r.1 s.world) s in
        let s₂ = moved_on (calling (k r.0)) (set_pool counted s.world) s₁ in
        let same = try_to_take_in_parts {p = e.platform} n s.world.pool in
        subst
          (λ (x : ℕ × Pool e.platform).
            NeverWaits (k x.0) (set_pool x.1 s.world)
            → Completes s (run_alone (k x.0) (set_pool x.1 s.world)).1)
          same
          (λ go. one_more (calling (take_buffer by_try n k)) s _ is_c tt (λ h₁.
            one_more (counting by_try n r.0 (k r.0)) s₁ _ h₁ tt (λ h₂. carry_out (k r.0) s₂ h₂ go)))
          never
    carry_out (read_msg p k) s is_c never =
        let m = get_msg s.world p in
        one_more (calling (read_msg p k)) s _ is_c tt
          (λ h. carry_out (k m) (moved_on (calling (k m)) s.world s) h never)
    carry_out (write_msg p m k) s is_c never =
        one_more (calling (write_msg p m k)) s _ is_c tt
          (λ h. carry_out k (moved_on (calling k) (set_msg p m s.world) s) h never)
    carry_out (put_msg q p t k) s is_c never =
        let r = put_at q p t s.world in
        one_more (calling (put_msg q p t k)) s _ is_c tt
          (λ h. carry_out (k r.0) (moved_on (calling (k r.0)) r.1 s) h never)
    carry_out (get_from q t k) s is_c (can, never) =
        let r = get_at q t s.world in
        one_more (calling (get_from q t k)) s _ is_c can
          (λ h. carry_out (k r.0 r.1) (moved_on (calling (k r.0 r.1)) r.2 s) h never)
    carry_out (free_buffer p k) s is_c never =
        let given = count_give e.platform p s.world.pool in
        let s₁ = moved_on (releasing p k) (set_pool given s.world) s in
        let s₂ = moved_on (calling k) (set_pool (release e.platform p given) s.world) s₁ in
        subst
          (λ (x : Pool e.platform).
            NeverWaits k (set_pool x s.world) → Completes s (run_alone k (set_pool x s.world)).1)
          (free_in_parts {p = e.platform} p s.world.pool)
          (λ go.
            one_more (calling (free_buffer p k)) s _ is_c tt
              (λ h₁. one_more (releasing p k) s₁ _ h₁ tt (λ h₂. carry_out k s₂ h₂ go)))
          never
    carry_out (call_timer c k) s is_c never =
        one_more (calling (call_timer c k)) s _ is_c tt
          (λ h. carry_out k (moved_on (calling k) (log_timer c s.world) s) h never)
    carry_out (on_app g k) s is_c never =
        let v = record (s.world) { app = g s.world.app } in
        one_more (calling (on_app g k)) s _ is_c tt
          (λ h. carry_out (k s.world.app) (moved_on (calling (k s.world.app)) v s) h never)

    -- From where it starts a piece of its code, too.
    pub start-Completes :
        (c : Prog e Unit) (s : Threads e)
        → s.prog i ≡ calling (done tt)
        → Code i s.world c
        → NeverWaits c s.world
        → Completes s (run_alone c s.world).1
    start-Completes c s ended code never =
        prepend (calling c) s.world _ s (starts i c ended code)
          (carry_out c (moved_on (calling c) s.world s) (update_self s.prog i (calling c)) never)
