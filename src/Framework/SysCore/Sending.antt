-- ===== src/Framework/SysCore/Sending.antt =====
-- What `msg_queue`, `msg_send` and `msg_unicast` do on every branch.
use zephyr_project.Prelude.{
  ℕ, ◌≡◌, refl, ◌⊎◌, inl, inr, true, false, some, arith, ◌==◌, update, Bool-cases, if_elim,
  Option-cases, leb, none, not, suc, zero, ◌+◌, ◌<◌, ◌≢◌, ◌≤◌, ap,
}
use zephyr_project.Prelude.Int.{ℤ, is_zero}
use zephyr_project.Platform.{Timeout, no_wait}
use zephyr_project.Framework.Types.{smc_invalid, sys_error, max_msg_recvs}
use zephyr_project.Framework.World.{Env, World, get_msg, set_rx_id}
use zephyr_project.Framework.Effect.{Queued, Unmoved, Stays, stay}
use zephyr_project.Framework.SysCore.{msg_queue, handler_at, msg_send, unicast_from, msg_unicast}
use Prim.Native.Char.{code}
use zephyr_project.Framework.BufferPool.{Pool}

module _ {e : Env} where
  -- The message is in the queue exactly when the status is 0; else nothing changed.
  abbrev pub Sends : World e → ℕ → ℕ → ℤ × World e → Type 0
  Sends w q p r =
      ((is_zero r.0 ≡ true) × Queued w r.1 q p × ((r.1).pool ≡ w.pool))
      ⊎ ((is_zero r.0 ≡ false) × Unmoved w r.1 × ((r.1).pool ≡ w.pool))

  put-Sends :
      (q p : ℕ) (t : Timeout) (w : World e)
      → let r = e.platform.k_msgq_put (w.queue q) p t in
        Sends w q p (r.0, record w { queue = update w.queue q r.1 })
  put-Sends q p t w =
      let r = e.platform.k_msgq_put (w.queue q) p t in
      elim (Bool-cases (is_zero r.0)) [
        | inl sent ↦
            let put = e.platform.put_ok (w.queue q) p t sent in
            inl (
              sent,
              record { heap = refl; contents = λ a. ground (arith, put); setup = (refl, refl) },
              refl,
            )
        | inr full ↦
            let same = e.platform.put_refused (w.queue q) p t full in
            inr (
              full,
              record {
                held = λ b. refl;
                contents = λ a. ground (arith, same);
                kept = λ b. inr refl;
                setup = (refl, refl);
              },
              refl,
            )
      ]

  pub msg_queue-Sends :
      (q p : ℕ) (t : Timeout) (w : World e) → Sends w q p (msg_queue q (some p) t w)
  unfolding msg_queue
  msg_queue-Sends q p t w =
      let no : Sends w q p (sys_error, w) = inr (refl, stay w, refl) in
      if_elim (Sends w q p) (q == 0) (λ _. no)
        (λ _.
          if_elim (Sends w q p) (p == 0) (λ _. no)
            (λ _.
              if_elim (Sends w q p) ((get_msg w p).header.msg_code == smc_invalid) (λ _. no)
                (λ _. put-Sends q p _ w)))

  -- The queue of the receiver registered in slot `i`.
  abbrev pub queue_at : World e → ℕ → ℕ
  queue_at w i = (w.recv (w.msg_task_registry i).p_msg_recv).p_queue

  -- As `Sends`, with the message's rx_id set to `id` when it was queued.
  abbrev pub SendsAs : World e → ℕ → ℕ → ℕ → ℤ × World e → Type 0
  SendsAs w id q p r =
      ((is_zero r.0 ≡ true) × Queued w r.1 q p × ((r.1).pool ≡ (set_rx_id p id w).pool))
      ⊎ ((is_zero r.0 ≡ false) × Stays w r.1 p)

  pub still : (w : World e) (p : ℕ) → Stays w w p
  still w p = record {
    held = λ b. refl;
    contents = λ a. refl;
    other = λ a. ground arith;
    setup = (refl, refl);
  }

  pub refused : (w : World e) (id q p : ℕ) → SendsAs w id q p (sys_error, w)
  refused w id q p = inr (refl, still w p)

  pub queue_as-SendsAs :
      (w : World e) (id q p : ℕ)
      → SendsAs w id q p (msg_queue q (some p) no_wait (set_rx_id p id w))
  queue_as-SendsAs w id q p = elim (msg_queue-Sends q p no_wait (set_rx_id p id w)) [
    | inl (z, s, m) ↦ inl (z, record { heap = s.heap; contents = s.contents; setup = s.setup }, m)
    | inr (z, s, m) ↦ inr (
      z,
      record {
        held = s.held;
        contents = s.contents;
        other = λ a. ground (
          arith,
          ap (λ (x : Pool e.platform). x.mem a) m,
          ap (λ (x : Pool e.platform). x.mem p) m,
        );
        setup = s.setup;
      },
    )
  ]

  -- With status 0 `msg_send` has put the message at the end of the queue of the receiver registered
  -- under `rx`, has set its rx_id to `rx`, and has changed no other queue and no block; with any
  -- other status every block and every queue is as before.
  pub msg_send-SendsAs : (rx p : ℕ) (w : World e) → SendsAs w rx (queue_at w rx) p (msg_send rx p w)
  unfolding msg_send
  msg_send-SendsAs rx p w =
      let P = SendsAs w rx (queue_at w rx) p in
      let no : P (sys_error, w) = refused w rx (queue_at w rx) p in
      if_elim P (p == 0) (λ _. no)
        (λ _.
          if_elim P (leb max_msg_recvs rx) (λ _. no)
            (λ _.
              if_elim P (not (w.msg_task_registry rx).in_use) (λ _. no)
                (λ _.
                  if_elim P ((w.msg_task_registry rx).p_msg_recv == 0) (λ _. no)
                    (λ _. queue_as-SendsAs w rx (queue_at w rx) p))))

  -- The first slot from `i` on whose receiver has a handler for `code`.
  pub record FirstWith (w : World e) (code i k : ℕ) : Type 0 where
    pub from : i ≤ k
    pub below : k < max_msg_recvs
    pub handled : handler_at w k code ≢ none
    pub first : (j : ℕ) → i ≤ j → j < k → handler_at w j code ≡ none

  -- Sent to the first receiver from slot `i` on with a handler, or refused and nothing moved.
  abbrev pub Routes : World e → ℕ → ℕ → ℤ × World e → Type 0
  Routes w i p r =
      ((is_zero r.0 ≡ true)
        × ((k : ℕ) × FirstWith w (get_msg w p).header.msg_code i k
            × Queued w r.1 (queue_at w k) p
            × ((r.1).pool ≡ (set_rx_id p (w.recv (w.msg_task_registry k).p_msg_recv).id w).pool)))
      ⊎ ((is_zero r.0 ≡ false) × Stays w r.1 p)

  FirstWith-suc :
      (w : World e) (code i k : ℕ)
      → handler_at w i code ≡ none
      → FirstWith w code (suc i) k
      → FirstWith w code i k
  FirstWith-suc w code i k e f = record {
    from = omega (arith, f.from);
    below = f.below;
    handled = f.handled;
    first = λ j lo hi. elim (Bool-cases (i == j)) [
      | inl same ↦ ground arith
      | inr later ↦ f.first j (ground arith) hi
    ];
  }

  FirstWith-self :
      (w : World e) (code i : ℕ) (h : e.Handler)
      → i < max_msg_recvs
      → handler_at w i code ≡ some h
      → FirstWith w code i i
  FirstWith-self w code i h lt e = record {
    from = omega arith;
    below = lt;
    handled = λ z. cc;
    first = λ j lo hi. absurd (omega arith);
  }

  unicast_from-Routes :
      (left i p : ℕ) (w : World e)
      → left + i ≡ max_msg_recvs
      → Routes w i p (unicast_from left i p w)
  unfolding unicast_from
  unicast_from-Routes zero i p w h = inr (refl, still w p)
  unicast_from-Routes (suc left) i p w h =
      let code = (get_msg w p).header.msg_code in
      elim (Option-cases (handler_at w i code)) [
        | inl e ↦
            rw (e, unicast_from)
              (elim (unicast_from-Routes left (suc i) p w (omega arith)) [
                | inl (z, (k, f, s, m)) ↦ inl (z, (k, FirstWith-suc w code i k e f, s, m))
                | inr bad ↦ inr bad
              ])
        | inr (h', e) ↦
            let id = (w.recv (w.msg_task_registry i).p_msg_recv).id in
            rw (e, unicast_from)
              (elim (queue_as-SendsAs w id (queue_at w i) p) [
                | inl (z, s, m) ↦ inl (z, (i, FirstWith-self w code i h' (omega arith) e, s, m))
                | inr bad ↦ inr bad
              ])
      ]

  -- `msg_unicast` sends to the first registered receiver with a handler for the message's code,
  -- under that receiver's id, or refuses the message and changes no queue and no block.
  pub msg_unicast-Routes : (p : ℕ) (w : World e) → Routes w 1 p (msg_unicast p w)
  unfolding msg_unicast
  msg_unicast-Routes p w =
      if_elim (Routes w 1 p) (p == 0) (λ _. inr (refl, still w p))
        (λ _. unicast_from-Routes 31 1 p w (omega arith))
