-- ===== src/Framework/Receiver/Dispatch.antt =====
-- What `msg_receiver` does with the message at the head of its queue.
use zephyr_project.Framework.Effect.{queued, buffer_of, live, Released}
use zephyr_project.Framework.Receiver.{
  dispatch_msg, msg_receiver, msg_recv, sys_unknown_msg_handler, call_back, free_unless_kept,
  run_msg_callback,
}
use zephyr_project.Framework.Types.{
  DispatchResult, dispatch_do_not_free, dispatch_error, dispatch_ok, msg_option_callback,
}
use zephyr_project.Framework.World.{Env, World, get_msg}
use zephyr_project.Platform.{Timeout, no_wait}
use zephyr_project.Prelude.{
  ==_ne, List, Option, arith, if◌then◌else◌, refl, some, update, ℕ, ◌∷◌, ◌≡◌, ◌≢◌, true, false,
  none, ◌==◌, inl, inr, ◌⊎◌,
}
use zephyr_project.Prelude.Int.{is_zero}
use zephyr_project.Framework.BufferPool.Heap.{buffer_pool_free_live}
use Prim.Native.Nat.{bit_and}
use zephyr_project.Framework.SysCore.NewBuffer.{free_msg-Released}

module _ {e : Env} (run_handler : e.Handler → ℕ → ℕ → World e → DispatchResult × World e)
    (run_callback : ℕ → ℕ → World e → World e) where
  -- The state after the head of the queue at `q` was taken.
  abbrev pub popped : World e → ℕ → Timeout → World e
  popped w q t = record w {
    queue =
        update w.queue q (e.platform.k_msgq_get (w.queue q) (if w.in_isr then no_wait else t)).2;
  }

  -- What a callback that the message at `p` asks for makes of the state.
  abbrev pub CalledBack : ℕ → World e → World e → Type 0
  CalledBack p w w' =
      let m = get_msg w p in
      (((bit_and m.header.options msg_option_callback == 0) ≡ true) × (w' ≡ w))
      ⊎ (((bit_and m.header.options msg_option_callback == 0) ≡ false)
          × ((callback : ℕ) × (arg : ℕ) × (rest : List ℕ) × (m.payload ≡ callback ∷ arg ∷ rest)
              × (((callback ≡ 0) × (w' ≡ w))
                  ⊎ ((callback ≢ 0) × (w' ≡ run_callback callback arg w)))))

  -- The message in block `b` is used up, with the handler's result.
  abbrev pub Consumes : ℕ → DispatchResult → World e → World e → Type 0
  Consumes b res w w' =
      ((res ≡ dispatch_do_not_free) × (w' ≡ w))
      ⊎ ((res ≢ dispatch_do_not_free) × Released w w' b × (w'.app ≡ w.app))

  run_msg_callback-CalledBack :
      (p : ℕ) (w w' : World e)
      → CalledBack p w w'
      → run_msg_callback run_handler run_callback p w ≡ w'
  unfolding run_msg_callback call_back
  run_msg_callback-CalledBack p w w' (inl (plain, same)) = rw (plain, same) refl
  run_msg_callback-CalledBack p w w' (inr (asks, (callback, arg, rest, words, inl (null, same)))) =
      rw (asks, words, null, same) refl
  run_msg_callback-CalledBack p w w'
        (inr (asks, (callback, arg, rest, words, inr (some_cb, same)))) =
      rw (asks, words, ==_ne callback 0 some_cb, same) refl

  free_unless_kept-Consumes :
      (b : ℕ) (res : DispatchResult) (w : World e)
      → Consumes b res w (free_unless_kept run_handler run_callback (buffer_of e b) (res, w))
  unfolding free_unless_kept
  free_unless_kept-Consumes b dispatch_ok w = inr (λ h. cc, free_msg-Released b w, refl)
  free_unless_kept-Consumes b dispatch_error w = inr (λ h. cc, free_msg-Released b w, refl)
  free_unless_kept-Consumes b dispatch_do_not_free w = inl (refl, refl)

  msg_recv-head :
      (q p : ℕ) (ps : List ℕ) (t : Timeout) (w : World e)
      → q ≢ 0
      → queued w q ≡ p ∷ ps
      → let r = msg_recv q (some 0) t w in
        (is_zero r.0 ≡ true)
        × (r.1 ≡ some p)
        × (r.2 ≡ popped w q t)
        × (queued (popped w q t) q ≡ ps)
  unfolding msg_recv
  msg_recv-head q p ps t w some_queue head =
      let g = e.platform.get_cons (w.queue q) (if w.in_isr then no_wait else t) p ps head in
      (
        rw (==_ne q 0 some_queue) g.0,
        rw (==_ne q 0 some_queue, g.0, g.1) refl,
        rw (==_ne q 0 some_queue) refl,
        ground (arith, g.2),
      )

  module _ (p_rxer p : ℕ) (w : World e) (ps : List ℕ) (dispatch : ℕ → Option e.Handler)
      (some_rxer : p_rxer ≢ 0) (some_queue : (w.recv p_rxer).p_queue ≢ 0) (some_msg : p ≢ 0)
      (head : queued w (w.recv p_rxer).p_queue ≡ p ∷ ps)
      (dispatcher : (w.recv p_rxer).p_msg_dispatcher ≡ some dispatch) where
    -- `msg_receiver` takes the oldest message from the queue, and hands it to the handler that the
    -- dispatcher names for its code.
    pub msg_receiver-dispatch_msg :
        let w₁ = popped w (w.recv p_rxer).p_queue (w.recv p_rxer).rx_block_ticks in
        (msg_receiver run_handler run_callback p_rxer w
          ≡ dispatch_msg run_handler run_callback
              (dispatch (get_msg w p).header.msg_code)
              p_rxer
              p
              w₁)
        × (queued w₁ (w.recv p_rxer).p_queue ≡ ps)
    unfolding msg_receiver
    msg_receiver-dispatch_msg =
        let rxer = w.recv p_rxer in
        let m = msg_recv-head rxer.p_queue p ps rxer.rx_block_ticks w some_queue head in
        (
          rw (==_ne p_rxer 0 some_rxer, m.1, m.0, m.2, ==_ne p 0 some_msg, dispatcher, m.2) refl,
          m.3,
        )

    module _ (b : ℕ) (eq : p ≡ buffer_of e b) (h : e.Handler) (w₂ : World e)
        (known : dispatch (get_msg w p).header.msg_code ≡ some h)
        (called : let w₁ = popped w (w.recv p_rxer).p_queue (w.recv p_rxer).rx_block_ticks in
          CalledBack p (run_handler h p_rxer p w₁).1 w₂) where
      -- For a receiver with a queue and a dispatcher, and the oldest message, in the buffer `p` of block
      -- `b`, with a code whose handler is `h`: the message is taken from the queue, `h` is called with
      -- it, and then the callback that the message asks for, as `h` has left it, if any, with its data.
      -- In the end the queues, the blocks and the application are as that has left them, but for the
      -- message's block, which is released unless `h` has returned DISPATCH_DO_NOT_FREE.
      pub msg_receiver-Consumes :
          let w₁ = popped w (w.recv p_rxer).p_queue (w.recv p_rxer).rx_block_ticks in
          (queued w₁ (w.recv p_rxer).p_queue ≡ ps)
          × Consumes b
              (run_handler h p_rxer p w₁).0
              w₂
              (msg_receiver run_handler run_callback p_rxer w)
      unfolding dispatch_msg
      msg_receiver-Consumes =
          let w₁ = popped w (w.recv p_rxer).p_queue (w.recv p_rxer).rx_block_ticks in
          let r = run_handler h p_rxer p w₁ in
          let m = msg_receiver-dispatch_msg in
          let ran : run_msg_callback run_handler run_callback p r.1 ≡ w₂ =
            run_msg_callback-CalledBack p r.1 w₂ called in
          (m.1, rw (m.0, known, ran) (rw eq (free_unless_kept-Consumes b _ w₂)))

    -- A message with a code that the dispatcher does not know is freed: its block is released, no other
    -- block changes, and the queue keeps the messages behind it.
    pub msg_receiver_unknown :
        (b : ℕ)
        → p ≡ buffer_of e b
        → dispatch (get_msg w p).header.msg_code ≡ none
        → let w' = msg_receiver run_handler run_callback p_rxer w in
          (queued w' (w.recv p_rxer).p_queue ≡ ps)
          × ((a : ℕ) → live w' a ≡ (if a == b then false else live w a))
    unfolding dispatch_msg sys_unknown_msg_handler
    msg_receiver_unknown b eq unknown =
        let m = msg_receiver-dispatch_msg in
        rw (m.0, unknown, eq) (m.1, λ a. buffer_pool_free_live {p = e.platform} b a w.pool)
