-- ===== src/Framework/SysCore/NewBuffer.antt =====
-- A message in a new buffer that is queued, or freed again when it is refused.
use zephyr_project.Framework.BufferPool.{Pool}
use zephyr_project.Framework.BufferPool.Heap.{
  buffer_pool_free_live, buffer_pool_free-mem, Refused, Taken,
}
use zephyr_project.Framework.Effect.{
  Delivered, Unmoved, buffer_of, live, queued, SameSetup, Stays, buffer_of-ne, Released,
}
use zephyr_project.Framework.SysCore.Sending.{SendsAs}
use zephyr_project.Framework.Types.{Msg}
use zephyr_project.Framework.World.{Env, World, free_msg, get_msg, set_rx_id, set_pool}
use zephyr_project.Prelude.{
  ap, arith, false, if◌then◌else◌, inl, inr, true, ℕ, ◌==◌, ◌∙◌, ◌≡◌, ◌⊎◌, Bool-cases, refl,
}
use zephyr_project.Prelude.Int.{is_zero, ℤ}

module _ {e : Env} where
  -- Freeing a message releases its block.
  pub free_msg-Released : (b : ℕ) (w : World e) → Released w (free_msg (buffer_of e b) w) b
  free_msg-Released b w = record {
    held = λ a. buffer_pool_free_live {p = e.platform} b a w.pool;
    contents = λ a. refl;
    other = λ p. ground (
      arith,
      buffer_pool_free-mem (buffer_of e b) p w.pool,
      buffer_pool_free-mem (buffer_of e b) (buffer_of e b) w.pool,
    );
    setup = (refl, refl);
  }

  -- `w₁` is `w` with the block `b` allocated and its buffer written.
  pub record Filled (w w₁ : World e) (b : ℕ) : Type 0 where
    pub fresh : live w b ≡ false
    pub held : (a : ℕ) → live w₁ a ≡ (if a == b then true else live w a)
    pub contents : (a : ℕ) → queued w₁ a ≡ queued w a
    pub other :
        (p : ℕ)
        → get_msg w₁ p ≡ (if p == buffer_of e b then get_msg w₁ (buffer_of e b) else get_msg w p)
    pub setup : SameSetup w w₁

  -- No buffer was to be had: all is as before.
  pub take_fails-Unmoved :
      (w : World e) (s : Pool e.platform)
      → Refused {p = e.platform} w.pool s
      → Unmoved w (set_pool s w)
  take_fails-Unmoved w s x = record {
    held = x.held;
    contents = λ a. refl;
    kept = λ b. inr (ap (λ (f : ℕ → Msg). f (buffer_of e b)) x.written);
    setup = (refl, refl);
  }

  -- A buffer was taken, and then only it was written.
  pub take_succeeds-Filled :
      (size b : ℕ) (w : World e) (s : Pool e.platform) (mem : ℕ → Msg)
      → Taken {p = e.platform} size b w.pool s
      → ((a : ℕ) → mem a ≡ (if a == buffer_of e b then mem (buffer_of e b) else s.mem a))
      → Filled w (set_pool (record s { mem = mem }) w) b
  take_succeeds-Filled size b w s mem x only = record {
    fresh = x.fresh;
    held = x.held;
    contents = λ a. refl;
    other = λ a. ground (arith, ap (λ (f : ℕ → Msg). f a) x.written, only a);
    setup = (refl, refl);
  }

  -- A buffer that is freed again leaves `w` as it was.
  pub free_new-Unmoved :
      (w w₁ w₂ : World e) (b : ℕ)
      → Filled w w₁ b
      → Stays w₁ w₂ (buffer_of e b)
      → Unmoved w (free_msg (buffer_of e b) w₂)
  free_new-Unmoved w w₁ w₂ b f u = record {
    held = λ a.
        ground
          (arith, f.fresh, f.held a, u.held a, buffer_pool_free_live {p = e.platform} b a w₂.pool);
    contents = λ a. u.contents a ∙ f.contents a;
    kept = λ a. elim (Bool-cases (a == b)) [
      | inl same ↦ inl (ground (arith, f.fresh))
      | inr differ ↦
          let ne = buffer_of-ne e a b differ in
          inr (
            buffer_pool_free-mem (buffer_of e b) (buffer_of e a) w₂.pool
            ∙ ground (arith, u.other (buffer_of e a), f.other (buffer_of e a)))
    ];
    setup = (u.setup.0 ∙ f.setup.0, u.setup.1 ∙ f.setup.1);
  }

  -- The new message `m` was put into the queue at `q`, or all is as before.
  abbrev pub Creates : World e → (q : ℕ) → (m : Msg) → ℤ × World e → Type 0
  Creates w q m r =
      ((is_zero r.0 ≡ true) × ((b : ℕ) × Delivered w r.1 b q m))
      ⊎ ((is_zero r.0 ≡ false) × Unmoved w r.1)

  -- Sending the new buffer creates its message, or all is as before.
  pub new_buffer-Creates :
      (w w₁ : World e) (b q id : ℕ) (m : Msg) (r : ℤ × World e)
      → Filled w w₁ b
      → get_msg (set_rx_id (buffer_of e b) id w₁) (buffer_of e b) ≡ m
      → SendsAs w₁ id q (buffer_of e b) r
      → Creates w q m (if is_zero r.0 then r else (r.0, free_msg (buffer_of e b) r.1))
  new_buffer-Creates w w₁ b q id m r f stored (inl (z, s, mem)) = rw z (
      inl (
        z,
        (
          b,
          record {
            fresh = f.fresh;
            held = λ a. ap (λ h. e.platform.live h a) s.heap ∙ f.held a;
            contents = λ a. ground (arith, s.contents a, f.contents a, f.contents q);
            stored =
                λ p. ap (λ (x : Pool e.platform). x.mem p) mem ∙ ground (arith, stored, f.other p);
            setup = (s.setup.0 ∙ f.setup.0, s.setup.1 ∙ f.setup.1);
          },
        ),
      ))
  new_buffer-Creates w w₁ b q id m r f stored (inr (z, u)) =
      rw z (inr (z, free_new-Unmoved w w₁ r.1 b f u))

  -- The new message `m` stands at the end of the queue at `q`, or all is as before.
  abbrev pub Posts : World e → ℕ → Msg → World e → Type 0
  Posts w q m w' = ((b : ℕ) × Delivered w w' b q m) ⊎ Unmoved w w'

  pub Creates-Posts :
      (w : World e) (q : ℕ) (m : Msg) (r : ℤ × World e) → Creates w q m r → Posts w q m r.1
  Creates-Posts w q m r (inl (z, d)) = inl d
  Creates-Posts w q m r (inr (z, u)) = inr u
