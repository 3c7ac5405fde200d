-- ===== src/Framework/SysMsg/Unicast.antt =====
-- The creator of sys_msg.c that lets the registry find the receiver.
use Prim.Native.Char.{code}
use zephyr_project.Framework.BufferPool.{buffer_pool_take, Pool}
use zephyr_project.Framework.BufferPool.Heap.{bph_size_pos, buffer_pool_take-Takes}
use zephyr_project.Framework.Effect.{Delivered, Unmoved, buffer_of}
use zephyr_project.Framework.SysCore.NewBuffer.{
  Creates, Filled, free_new-Unmoved, take_fails-Unmoved, take_succeeds-Filled, new_buffer-Creates,
}
use zephyr_project.Framework.SysCore.Sending.{FirstWith, msg_unicast-Routes, queue_at}
use zephyr_project.Framework.SysMsg.{
  deallocate_on_error, sys_msg_header_init, sysmsg_unicast_create_and_send,
}
use zephyr_project.Framework.SysMsg.Delivery.{plain_msg}
use zephyr_project.Framework.Types.{sizeof_msg, Msg}
use zephyr_project.Framework.World.{Env, World, set_pool, get_msg}
use zephyr_project.Prelude.{arith, false, inl, inr, refl, true, ℕ, ◌≡◌, ◌⊎◌, ap}
use zephyr_project.Prelude.Int.{is_zero, ℤ}
use zephyr_project.Framework.SysCore.{handler_at, msg_unicast}
use mathlib.Core.Path.{subst}

module _ {e : Env} where
  -- The new message reached the queue of the first receiver with a handler for its code, under that
  -- receiver's id, or all is as before.
  abbrev pub Finds : World e → ℕ → ℕ → ℤ × World e → Type 0
  Finds w code tx r =
      ((is_zero r.0 ≡ true)
        × ((k : ℕ) × FirstWith w code 1 k
            × ((b : ℕ) × Delivered w r.1 b (queue_at w k)
                  (plain_msg code (w.recv (w.msg_task_registry k).p_msg_recv).id tx))))
      ⊎ ((is_zero r.0 ≡ false) × Unmoved w r.1)

  found-Finds :
      (code tx k : ℕ) (w : World e) (r : ℤ × World e)
      → FirstWith w code 1 k
      → Creates w
          (queue_at w k)
          (plain_msg code (w.recv (w.msg_task_registry k).p_msg_recv).id tx)
          r
      → Finds w code tx r
  found-Finds code' tx k w r f (inl (z, (b, d))) = inl (z, (k, f, (b, d)))
  found-Finds code' tx k w r f (inr bad) = inr bad

  same_first :
      (code k : ℕ) (w : World e) (s : Pool e.platform)
      → FirstWith (set_pool s w) code 1 k
      → FirstWith w code 1 k
  unfolding handler_at
  same_first code' k w s f = record {
    from = f.from;
    below = f.below;
    handled = f.handled;
    first = f.first;
  }

  -- With status 0, `sysmsg_unicast_create_and_send` has put one new message with the given code and
  -- sender at the end of the queue of the first registered receiver that has a handler for the code,
  -- under that receiver's id; with any other status every block and every queue is as before.
  pub sysmsg_unicast_create_and_send-Finds :
      (tx code : ℕ) (w : World e) → Finds w code tx (sysmsg_unicast_create_and_send tx code w)
  unfolding sysmsg_unicast_create_and_send sys_msg_header_init deallocate_on_error
  sysmsg_unicast_create_and_send-Finds tx code' w =
      let taken = buffer_pool_take e.platform sizeof_msg w.pool in
      elim (buffer_pool_take-Takes sizeof_msg w.pool) [
        | inl (z, x) ↦ rw z (inr (refl, take_fails-Unmoved w _ x))
        | inr (b, z, x) ↦
            let p = buffer_of e b in
            let w₁ = sys_msg_header_init p code' tx (set_pool taken.1 w) in
            let filled : Filled w w₁ b =
              take_succeeds-Filled _ b w _ w₁.pool.mem x (λ a. ground arith) in
            rw (z, bph_size_pos e.platform.config b)
              (elim (msg_unicast-Routes p w₁) [
                | inl (sent_it, (k, f, q, m)) ↦
                    let id = (w.recv (w.msg_task_registry k).p_msg_recv).id in
                    let is_code : (get_msg w₁ p).header.msg_code ≡ code' = ground arith in
                    let c : Creates w (queue_at w k) (plain_msg code' id tx) _ =
                      new_buffer-Creates w w₁ b (queue_at w k) id (plain_msg code' id tx)
                        (msg_unicast p w₁) filled
                        (ground (arith, ap (λ (g : ℕ → Msg). g p) x.written))
                        (inl (sent_it, q, m)) in
                    found-Finds code' tx k w _
                      (same_first code' k w w₁.pool
                        (subst (λ (a : ℕ). FirstWith w₁ a 1 k) is_code f))
                      c
                | inr (failed, u) ↦ rw failed (inr (failed, free_new-Unmoved w w₁ _ b filled u))
              ])
      ]
