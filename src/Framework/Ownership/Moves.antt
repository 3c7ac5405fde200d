-- ===== src/Framework/Ownership/Moves.antt =====
-- A block that changes hands: it is taken from the pool, put into a queue, or got from one.
use zephyr_project.Framework.Effect.{buffer_of, buffers, live, queued}
use zephyr_project.Framework.Ownership.{
  Owned, Owner, buffers-append, count, count-append, free_count, holder, in_queue, is_owned, nobody,
  owns,
}
use zephyr_project.Framework.World.{Env, World}
use zephyr_project.Platform.{Timeout}
use zephyr_project.Prelude.{
  ==_refl, Bool-cases, List, [], ap, arith, false, if◌then◌else◌, inl, inr, refl, suc, true, update,
  ℕ, ◌++◌, ◌==◌, ◌∙◌, ◌∷◌, ◌≡◌,
}

owns-holder : (q q' : ℕ) (o : Owner) → owns q o ≡ true → (q' == q) ≡ false → owns q' o ≡ false
owns-holder q q' (in_queue a) h ne = ground arith
owns-holder q q' nobody h ne = cc
owns-holder q q' holder h ne = cc

owns-is_owned : (q : ℕ) (o : Owner) → owns q o ≡ true → is_owned o ≡ true
owns-is_owned q (in_queue a) h = refl
owns-is_owned q nobody h = cc
owns-is_owned q holder h = cc

module _ {e : Env} {box : ℕ → List ℕ} {owner : ℕ → Owner} where
  -- The queue that holds `b` first.
  pub first_owner :
      {w : World e} (b q : ℕ) (bs : List ℕ)
      → Owned w box owner
      → box q ≡ b ∷ bs
      → (owns q (owner b) ≡ true) × (count b bs ≡ 0)
  first_owner {w} b q bs o e' =
      let n : count b (box q) ≡ suc (count b bs) = rw e' (rw (==_refl b) refl) in
      (ground (arith, o.counted b q), ground (arith, o.counted b q))

  -- The oldest message of the queue at `q` is got from it, and its block is then held.
  pub got-Owned :
      (w : World e) (b q : ℕ) (bs : List ℕ) (t : Timeout)
      → Owned w box owner
      → box q ≡ b ∷ bs
      → Owned
          (record w { queue = update w.queue q (e.platform.k_msgq_get (w.queue q) t).2 })
          (update box q bs)
          (update owner b holder)
  got-Owned w b q bs t o e' =
      let (mine, once) = first_owner b q bs o e' in
      let head : queued w q ≡ buffer_of e b ∷ buffers e bs = o.named q ∙ rw e' refl in
      let g = e.platform.get_cons (w.queue q) t _ _ head in
      record {
        named = λ a. ground (arith, g.2, o.named a);
        alive = λ a. ground (arith, o.alive a, owns-is_owned q (owner b) mine);
        counted = λ a q'. elim (Bool-cases (a == b)) [
          | inl self ↦ elim (Bool-cases (q' == q)) [
            | inl here ↦ rw (self, here) (ground (arith, once))
            | inr away ↦
                rw (self, away)
                  (ground (arith, o.counted b q', owns-holder q q' (owner b) mine away))
          ]
          | inr differ ↦ elim (Bool-cases (q' == q)) [
            | inl here ↦
                rw (differ, here) (ground (arith, o.counted a q', o.counted a q, ap (count a) e'))
            | inr away ↦ rw (differ, away) (o.counted a q')
          ]
        ];
      }

  -- A free block is taken, and then held.
  pub taken-Owned :
      (w w' : World e) (b : ℕ)
      → Owned w box owner
      → live w b ≡ false
      → ((a : ℕ) → live w' a ≡ (if a == b then true else live w a))
      → ((a : ℕ) → queued w' a ≡ queued w a)
      → Owned w' box (update owner b holder)
  taken-Owned w w' b o fresh held contents = record {
    named = λ q. contents q ∙ o.named q;
    alive = λ a. ground (arith, held a, o.alive a);
    counted = λ a q. ground (arith, o.counted a q, free_count w b q o fresh);
  }

  -- A block that is held goes to the end of the queue at `q`.
  pub put-Owned :
      (w w' : World e) (b q : ℕ)
      → Owned w box owner
      → owner b ≡ holder
      → ((a : ℕ) → live w' a ≡ live w a)
      → ((a : ℕ) → queued w' a ≡ (if a == q then queued w q ++ buffer_of e b ∷ [] else queued w a))
      → Owned w' (update box q (box q ++ b ∷ [])) (update owner b (in_queue q))
  put-Owned w w' b q o mine held contents =
      let absent : (a : ℕ) → count b (box a) ≡ 0 = λ a. o.counted b a ∙ rw mine refl in
      record {
        named = λ a.
            ground (arith, contents a, o.named a, o.named q, buffers-append e (box q) (b ∷ []));
        alive = λ a. ground (arith, held a, o.alive a, mine);
        counted = λ a q'. ground (
          arith,
          o.counted a q',
          o.counted a q,
          absent q',
          absent q,
          count-append a (box q) (b ∷ []),
        );
      }

  -- Blocks and queues as they were.
  pub kept-Owned :
      (w w' : World e)
      → Owned w box owner
      → ((a : ℕ) → live w' a ≡ live w a)
      → ((a : ℕ) → queued w' a ≡ queued w a)
      → Owned w' box owner
  kept-Owned w w' o held contents = record {
    named = λ q. contents q ∙ o.named q;
    alive = λ a. held a ∙ o.alive a;
    counted = o.counted;
  }
