-- ===== src/Framework/Receiver/Flush.antt =====
-- What `msg_flush` does to a queue and to what was in it.
use zephyr_project.Framework.BufferPool.{buffer_pool_free}
use zephyr_project.Framework.BufferPool.Heap.{bph_size_pos, buffer_pool_free_live}
use zephyr_project.Framework.Effect.{buffer_of, live, queued, buffers, has_block}
use zephyr_project.Framework.Receiver.{flush_loop, msg_flush}
use zephyr_project.Framework.SysCore.Sending.{queue_at}
use zephyr_project.Framework.Types.{max_msg_recvs}
use zephyr_project.Framework.World.{Env, World, set_pool}
use zephyr_project.Platform.{no_wait}
use zephyr_project.Prelude.{
  List, [], ap, arith, false, if◌then◌else◌, leb, length, refl, some, suc, true, update, zero, ℕ,
  ◌+◌, ◌<◌, ◌==◌, ◌∙◌, ◌∷◌, ◌≡◌,
}

module _ {e : Env} where
  -- The queue at `q`, which held the buffers of `bs`, is empty, those blocks are free, and the other
  -- queues and blocks are unchanged.
  pub record Flushed (w w' : World e) (q : ℕ) (bs : List ℕ) : Type 0 where
    pub contents : (a : ℕ) → queued w' a ≡ (if a == q then [] else queued w a)
    pub held : (b : ℕ) → live w' b ≡ (if has_block b bs then false else live w b)

  flush_loop-Flushed :
      (fuel q purged : ℕ) (w : World e) (bs : List ℕ)
      → queued w q ≡ buffers e bs
      → length bs < fuel
      → (w' : World e) × (flush_loop fuel q purged w ≡ some (purged + length bs, w'))
        × Flushed w w' q bs
  unfolding flush_loop
  flush_loop-Flushed zero q purged w bs c lt = absurd (omega arith)
  flush_loop-Flushed (suc fuel) q purged w [] c lt =
      let g = e.platform.get_nil (w.queue q) c in
      let r = e.platform.k_msgq_get (w.queue q) no_wait in
      let w' : World e = record w { queue = update w.queue q r.2 } in
      (
        w',
        rw g.0 (ap (λ (n : ℕ). some (n, w')) (omega arith)),
        record { contents = λ a. ground (arith, g.1); held = λ b. refl },
      )
  flush_loop-Flushed (suc fuel) q purged w (b ∷ bs) c lt =
      let g = e.platform.get_cons (w.queue q) no_wait (buffer_of e b) (buffers e bs) c in
      let r = e.platform.k_msgq_get (w.queue q) no_wait in
      let got : World e = record w { queue = update w.queue q r.2 } in
      let w₁ : World e = set_pool (buffer_pool_free e.platform (buffer_of e b) w.pool) got in
      let (w', run, fl) =
        flush_loop-Flushed fuel q (purged + 1) w₁ bs (ground (arith, g.2)) (omega arith) in
      (
        w',
        rw (g.0, g.1, bph_size_pos e.platform.config b)
            (run ∙ ap (λ (n : ℕ). some (n, w')) (omega arith)),
        record {
          contents = λ a. ground (arith, fl.contents a);
          held = λ a. ground (arith, fl.held a, buffer_pool_free_live {p = e.platform} b a w.pool);
        },
      )

  -- With fuel for one round more than there are messages, `msg_flush` on a registered receiver
  -- returns their number, leaves its queue empty, frees exactly their blocks, and changes no other
  -- queue.
  pub msg_flush-Flushed :
      (fuel rx : ℕ) (w : World e) (bs : List ℕ)
      → rx < max_msg_recvs
      → (w.msg_task_registry rx).in_use ≡ true
      → queued w (queue_at w rx) ≡ buffers e bs
      → length bs < fuel
      → (w' : World e) × (msg_flush fuel rx w ≡ some (length bs, w'))
        × Flushed w w' (queue_at w rx) bs
  unfolding msg_flush
  msg_flush-Flushed fuel rx w bs lt used c enough =
      let (w', run, fl) = flush_loop-Flushed fuel (queue_at w rx) 0 w bs c enough in
      let below : leb max_msg_recvs rx ≡ false = ground arith in
      (w', rw (below, used) (run ∙ ap (λ (n : ℕ). some (n, w')) (omega arith)), fl)
