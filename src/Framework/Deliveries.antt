-- ===== src/Framework/Deliveries.antt =====
-- What code that only sends does to the state: it creates messages, one after another.
use zephyr_project.Framework.Effect.{Delivered, SameSetup, Unmoved, buffer_of, buffer_of-ne, live}
use zephyr_project.Framework.SysCore.NewBuffer.{Creates, Posts}
use zephyr_project.Framework.Types.{Msg}
use zephyr_project.Framework.World.{Env, World, get_msg}
use zephyr_project.Prelude.{inl, inr, ℕ, ◌∙◌, ap, ◌≡◌, arith, false, refl, sym, true, ◌==◌}
use zephyr_project.Prelude.Int.{ℤ}
use zephyr_project.Framework.BufferPool.{Pool}

module _ {e : Env} where
  -- From `w` messages were created and queued, and nothing else happened to blocks and queues.
  pub data Deliveries : World e → World e → Type 0 where
    quiet : {u v : World e} → Unmoved u v → Deliveries u v
    sent : {u v : World e} (b q : ℕ) (m : Msg) → Delivered u v b q m → Deliveries u v
    next : {u v w : World e} → Deliveries u v → Deliveries v w → Deliveries u w

  pub Creates-Deliveries :
      {w : World e} (q : ℕ) (m : Msg) (r : ℤ × World e) → Creates w q m r → Deliveries w r.1
  Creates-Deliveries q m r (inl (z, (b, d))) = sent b q m d
  Creates-Deliveries q m r (inr (z, u)) = quiet u

  pub Posts-Deliveries : {w w' : World e} (q : ℕ) (m : Msg) → Posts w q m w' → Deliveries w w'
  Posts-Deliveries q m (inl (b, d)) = sent b q m d
  Posts-Deliveries q m (inr u) = quiet u

  -- What leaves the pool, the queues and the setup alone.
  pub aside-Deliveries :
      (w w' : World e)
      → w'.pool ≡ w.pool
      → w'.queue ≡ w.queue
      → w'.recv ≡ w.recv
      → w'.msg_task_registry ≡ w.msg_task_registry
      → Deliveries w w'
  aside-Deliveries w w' pool queue recv registry = quiet (record {
    held = λ b. ap (λ (s : Pool e.platform). e.platform.live s.heap b) pool;
    contents = λ a. ap (λ (f : ℕ → e.platform.Msgq). e.platform.contents (f a)) queue;
    kept = λ b. inr (ap (λ (s : Pool e.platform). s.mem (buffer_of e b)) pool);
    setup = (recv, registry);
  })

  pub Deliveries-SameSetup : {u w : World e} → Deliveries u w → SameSetup u w
  Deliveries-SameSetup (quiet u) = u.setup
  Deliveries-SameSetup (sent b q m d) = d.setup
  Deliveries-SameSetup (next g h) =
      let (a, b) = Deliveries-SameSetup g in let (c, d) = Deliveries-SameSetup h in (c ∙ a, d ∙ b)

  -- An allocated block and its message stay.
  pub Deliveries-kept :
      {u w : World e}
      → Deliveries u w
      → (b : ℕ) → live u b ≡ true
      → (live w b ≡ true) × (get_msg w (buffer_of e b) ≡ get_msg u (buffer_of e b))
  Deliveries-kept (quiet m) b alive = (
    m.held b ∙ alive,
    elim (m.kept b) [
      | inl dead ↦ let no : true ≡ false = sym alive ∙ dead in absurd (ground (arith, no))
      | inr same ↦ same
    ],
  )
  Deliveries-kept (sent c q m d) b alive =
      let apart : (b == c) ≡ false = ground (arith, d.fresh) in
      (d.held b ∙ rw apart alive, d.stored (buffer_of e b) ∙ rw (buffer_of-ne e b c apart) refl)
  Deliveries-kept (next g h) b alive =
      let (alive', same) = Deliveries-kept g b alive in
      let (alive'', same') = Deliveries-kept h b alive' in (alive'', same' ∙ same)
