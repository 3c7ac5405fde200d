-- ===== src/Framework/Threads/Stepping.antt =====
-- One step of a thread: what it does to the blocks that it and the others hold.
use zephyr_project.Framework.Effect.{
  SameSetup, buffer_of, queued, buffer_of-ne, buffers, Released, live,
}
use zephyr_project.Framework.Ownership.{
  Owned, Owner, holder, in_queue, is_holder, nobody, Released-Owned,
}
use zephyr_project.Framework.Threads.{
  Prog, get_from, get_at, put_at, put_msg, Now, Taking, calling, counting, exec,
}
use zephyr_project.Framework.Threads.Safety.{EndsEmpty, Safe, drop, gain, SafeNow}
use zephyr_project.Framework.World.{Env, World, get_msg, set_msg, set_pool}
use zephyr_project.Platform.{no_wait, Timeout}
use zephyr_project.Prelude.{
  List, [], arith, false, refl, true, update, ℕ, ◌==◌, ◌≡◌, ◌≢◌, ◌⊎◌, Bool-cases, ap, inl, inr, sym,
  ◌++◌, ◌∙◌, ◌∷◌, ◌<◌, ◌^◌,
}
use zephyr_project.Framework.BufferPool.{Pool, bph_size}
use zephyr_project.Framework.BufferPool.Heap.{Takes, block_of, bph_size_pos}
use zephyr_project.Framework.Ownership.Moves.{
  first_owner, got-Owned, kept-Owned, put-Owned, taken-Owned,
}
use zephyr_project.Framework.Types.{Msg}
use zephyr_project.Prelude.Int.{is_zero, ℤ}
use zephyr_project.Framework.Threads.Holding.{
  dropped, dropped_other, gained, gained_other, hands, idle, in_hand, not_in_hand,
}
use zephyr_project.Framework.BufferPool.Parts.{release, Beside}

module _ {e : Env} where
  -- A thread waits for a message where there is none, unless it asked not to.
  abbrev pub CanRun : World e → Now e → Type 0
  CanRun w (calling (get_from q t k)) = (queued w q ≢ []) ⊎ (t ≡ no_wait)
  CanRun w _ = Unit

  -- After a step of thread `i` from `w`, which leaves it with the program `c`.
  pub record Moved (owner : ℕ → Owner) (agent : ℕ → ℕ) (i : ℕ) (w : World e) (r : Now e × World e)
      : Type 0 where
    pub box' : ℕ → List ℕ
    pub owner' : ℕ → Owner
    pub agent' : ℕ → ℕ
    pub owned : Owned r.1 box' owner'
    pub safe : SafeNow (hands owner' agent' i) r.0
    pub others : (j : ℕ) → j ≢ i → hands owner' agent' j ≡ hands owner agent j
    pub kept :
        (j b : ℕ)
        → j ≢ i
        → hands owner agent j b ≡ true
        → get_msg r.1 (buffer_of e b) ≡ get_msg w (buffer_of e b)
    pub setup : SameSetup w r.1

  release-mem :
      (ptr : ℕ) (w : World e) (a : ℕ)
      → get_msg (set_pool (release e.platform ptr w.pool) w) a ≡ get_msg w a
  release-mem ptr w a = ground arith

  pub release-Released :
      (b : ℕ) (w : World e) → Released w (set_pool (release e.platform (buffer_of e b) w.pool) w) b
  release-Released b w = record {
    held = λ a.
        rw (bph_size_pos e.platform.config b, block_of b (bph_size e.platform.config))
          (e.platform.free_live w.pool.heap b a);
    contents = λ a. refl;
    other = λ p.
        ground
          (arith, release-mem (buffer_of e b) w p, release-mem (buffer_of e b) w (buffer_of e b));
    setup = (refl, refl);
  }

  module _ {box : ℕ → List ℕ} {owner : ℕ → Owner} (agent : ℕ → ℕ) (i : ℕ) (w : World e)
      (o : Owned w box owner) where
    -- A step that changes neither blocks, queues nor messages.
    pub stays-Moved :
        (c : Now e) (w' : World e)
        → SafeNow (hands owner agent i) c
        → ((b : ℕ) → live w' b ≡ live w b)
        → ((p : ℕ) → get_msg w' p ≡ get_msg w p)
        → ((q : ℕ) → queued w' q ≡ queued w q)
        → SameSetup w w'
        → Moved owner agent i w (c, w')
    stays-Moved c w' safe heap mem contents setup = record {
      box' = box;
      owner' = owner;
      agent' = agent;
      owned = kept-Owned w w' o heap contents;
      safe = safe;
      others = λ j other. refl;
      kept = λ j b other mine. mem (buffer_of e b);
      setup = setup;
    }

    -- A step on the pool's books and flags.
    pub aside-Moved :
        (c : Now e) (s : Pool e.platform)
        → SafeNow (hands owner agent i) c
        → Beside {p = e.platform} w.pool s
        → Moved owner agent i w (c, set_pool s w)
    aside-Moved c s safe (heap, mem) =
        stays-Moved c (set_pool s w) safe
          (λ b. ap (λ (h : e.platform.Heap). e.platform.live h b) heap)
          (λ p. ap (λ (f : ℕ → Msg). f p) mem) (λ q. refl) (refl, refl)

    pub take-Moved :
        (t : Taking) (n : ℕ) (k : ℕ → Prog e Unit) (r : ℕ × Pool e.platform)
        → Takes {p = e.platform} n w.pool r
        → n < 2 ^ 16
        → Safe EndsEmpty (hands owner agent i) (k 0)
        → ((b : ℕ)
            → hands owner agent i b ≡ false
            → Safe EndsEmpty (gain b (hands owner agent i)) (k (buffer_of e b)))
        → Moved owner agent i w (counting t n r.0 (k r.0), set_pool r.1 w)
    take-Moved t n k r (inl (z, x)) small failed got = record {
      box' = box;
      owner' = owner;
      agent' = agent;
      owned = kept-Owned w (set_pool r.1 w) o x.held (λ q. refl);
      safe = (small, inl z, rw z failed);
      others = λ j other. refl;
      kept = λ j b other mine. ap (λ (f : ℕ → Msg). f (buffer_of e b)) x.written;
      setup = (refl, refl);
    }
    take-Moved t n k r (inr (b, z, x)) small failed got =
        let free : is_holder (owner b) ≡ false = idle (owner b) (sym (o.alive b) ∙ x.fresh) in
        record {
          box' = box;
          owner' = update owner b holder;
          agent' = update agent b i;
          owned = taken-Owned w (set_pool r.1 w) b o x.fresh x.held (λ q. refl);
          safe =
              rw (gained owner agent i b)
                (small, inr (b, z, ground arith), rw z (got b (rw free refl)));
          others = λ j other. gained_other owner agent i b j free other;
          kept = λ j a other mine.
              let apart : (a == b) ≡ false = ground arith in
              ap (λ (f : ℕ → Msg). f (buffer_of e a)) x.written
              ∙ rw (buffer_of-ne e a b apart) refl;
          setup = (refl, refl);
        }

    -- A write into a buffer that the thread holds.
    pub write-Moved :
        (b : ℕ) (m : Msg) (k : Prog e Unit)
        → hands owner agent i b ≡ true
        → Safe EndsEmpty (hands owner agent i) k
        → Moved owner agent i w (calling k, set_msg (buffer_of e b) m w)
    write-Moved b m k mine safe = record {
      box' = box;
      owner' = owner;
      agent' = agent;
      owned = kept-Owned w (set_msg (buffer_of e b) m w) o (λ a. refl) (λ q. refl);
      safe = safe;
      others = λ j other. refl;
      kept = λ j a other theirs.
          let apart : (a == b) ≡ false = ground arith in rw (buffer_of-ne e a b apart) refl;
      setup = (refl, refl);
    }

    pub put-Moved :
        (b q : ℕ) (t : Timeout) (k : ℤ → Prog e Unit)
        → hands owner agent i b ≡ true
        → ((z : ℤ) → is_zero z ≡ true → Safe EndsEmpty (drop b (hands owner agent i)) (k z))
        → ((z : ℤ) → is_zero z ≡ false → Safe EndsEmpty (hands owner agent i) (k z))
        → Moved owner agent i w (exec (calling (put_msg q (buffer_of e b) t k)) w)
    put-Moved b q t k mine accepted full =
        let r = put_at q (buffer_of e b) t w in
        elim (Bool-cases (is_zero r.0)) [
          | inl ok ↦
              let put = e.platform.put_ok (w.queue q) (buffer_of e b) t ok in
              record {
                box' = update box q (box q ++ b ∷ []);
                owner' = update owner b (in_queue q);
                agent' = agent;
                owned =
                    put-Owned w r.1 b q o (in_hand (owner b) _ mine).0 (λ a. refl)
                      (λ a. ground (arith, put));
                safe = rw (dropped owner agent i b (in_queue q) refl) (accepted r.0 ok);
                others = λ j other. dropped_other owner agent i b j (in_queue q) refl mine other;
                kept = λ j a other theirs. refl;
                setup = (refl, refl);
              }
          | inr bad ↦
              let same = e.platform.put_refused (w.queue q) (buffer_of e b) t bad in
              stays-Moved (calling (k r.0)) r.1 (full r.0 bad) (λ b. refl) (λ p. refl)
                (λ a. ground (arith, same)) (refl, refl)
        ]

    pub release-Moved :
        (b : ℕ) (k : Prog e Unit)
        → hands owner agent i b ≡ true
        → Safe EndsEmpty (drop b (hands owner agent i)) k
        → Moved owner agent i w (calling k, set_pool (release e.platform (buffer_of e b) w.pool) w)
    release-Moved b k mine safe =
        let held = (in_hand (owner b) _ mine).0 in
        let f = release-Released b w in
        let f_mem = release-mem (buffer_of e b) w in
        record {
          box' = box;
          owner' = update owner b nobody;
          agent' = agent;
          owned = Released-Owned b o held f;
          safe = rw (dropped owner agent i b nobody refl) safe;
          others = λ j other. dropped_other owner agent i b j nobody refl mine other;
          kept = λ j a other theirs. f_mem (buffer_of e a);
          setup = (refl, refl);
        }

    pub get-Moved :
        (q : ℕ) (t : Timeout) (k : ℤ → ℕ → Prog e Unit) (bs : List ℕ)
        → box q ≡ bs
        → CanRun w (calling (get_from q t k))
        → Safe EndsEmpty (hands owner agent i) (get_from q t k)
        → Moved owner agent i w (exec (calling (get_from q t k)) w)
    get-Moved q t k [] is_box (inl some_msg) safe =
        absurd (some_msg (o.named q ∙ ap (buffers e) is_box))
    get-Moved q t k [] is_box (inr at_once) safe =
        let r = get_at {e = e} q no_wait w in
        let g = e.platform.get_nil (w.queue q) (o.named q ∙ ap (buffers e) is_box) in
        rw at_once (
          stays-Moved (calling (k r.0 r.1)) r.2 (safe.0 r.0 r.1 g.0) (λ b. refl) (λ p. refl)
            (λ a. ground (arith, g.1, o.named q, ap (buffers e) is_box)) (refl, refl))
    get-Moved q t k (b ∷ bs) is_box can safe =
        let r = get_at {e = e} q t w in
        let head : queued w q ≡ buffer_of e b ∷ buffers e bs = o.named q ∙ ap (buffers e) is_box in
        let g = e.platform.get_cons (w.queue q) t _ _ head in
        let free : is_holder (owner b) ≡ false =
          not_in_hand q (owner b) (first_owner b q bs o is_box).0 in
        record {
          box' = update box q bs;
          owner' = update owner b holder;
          agent' = update agent b i;
          owned = got-Owned w b q bs t o is_box;
          safe = rw (gained owner agent i b, g.1) (safe.1 r.0 b g.0 (rw free refl));
          others = λ j other. gained_other owner agent i b j free other;
          kept = λ j a other theirs. refl;
          setup = (refl, refl);
        }
