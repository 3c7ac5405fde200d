-- ===== src/Framework/Threads/Agreement.antt =====
-- Two environments with different handlers, for the one handler that `msg_receiver` calls.
use zephyr_project.Framework.Receiver.{
  call_back, dispatch_msg, free_unless_kept, msg_receiver, msg_recv, run_msg_callback,
  sys_unknown_msg_handler,
}
use zephyr_project.Framework.Threads.{get_at}
use zephyr_project.Framework.Types.{
  DispatchResult, dispatch_do_not_free, dispatch_error, dispatch_ok,
}
use zephyr_project.Framework.World.{Env, World, get_msg}
use zephyr_project.Platform.{no_wait}
use zephyr_project.Prelude.{
  Bool, List, Option, [], false, if_elim, if◌then◌else◌, none, refl, some, true, ℕ, ◌==◌, ◌∷◌, ◌≡◌,
  not, ◌&&◌,
}
use zephyr_project.Prelude.Int.{is_zero, ℤ}

if_else :
    {A : Type 0} (b : Bool) {x y : A} (v : A) → x ≡ y → (if b then v else x) ≡ (if b then v else y)
if_else true v e = refl
if_else false v e = e

same_else :
    {A : Type 0} (b : Bool) {x y : A} (v : A) → x ≡ y → (if b then x else v) ≡ (if b then y else v)
same_else true v e = e
same_else false v e = refl

module _ {e : Env} where
  -- The handler that the receiver's dispatcher names for the message at `p`.
  abbrev pub asked : World e → ℕ → ℕ → World e → Option e.Handler
  asked w p_rxer p v = elim (w.recv p_rxer).p_msg_dispatcher [
    | none ↦ none
    | some dispatch ↦ dispatch (get_msg v p).header.msg_code
  ]

  -- What `msg_receiver` does with the status and the pointer that it received.
  abbrev pub handled_by :
      (e.Handler → ℕ → ℕ → World e → DispatchResult × World e)
      → (ℕ → ℕ → World e → World e)
      → ℕ
      → World e
      → ℤ × Option ℕ × World e
      → World e
  handled_by f callback p_rxer w r = elim r.1 [
    | none ↦ r.2
    | some p_msg ↦
        if is_zero r.0 && not (p_msg == 0)
        then dispatch_msg f callback (asked w p_rxer p_msg r.2) p_rxer p_msg r.2
        else r.2
  ]

module _ {e : Env} (f g : e.Handler → ℕ → ℕ → World e → DispatchResult × World e)
    (callback : ℕ → ℕ → World e → World e) where
  call_back-same :
      (words : List ℕ) (w : World e) → call_back f callback words w ≡ call_back g callback words w
  unfolding call_back
  call_back-same [] w = refl
  call_back-same (cb ∷ []) w = refl
  call_back-same (cb ∷ (arg ∷ rest)) w = refl

  run_msg_callback-same :
      (p : ℕ) (w : World e) → run_msg_callback f callback p w ≡ run_msg_callback g callback p w
  unfolding run_msg_callback call_back
  run_msg_callback-same p w = rw (call_back-same (get_msg w p).payload w) refl

  free_unless_kept-same :
      (p : ℕ) (r : DispatchResult × World e)
      → free_unless_kept f callback p r ≡ free_unless_kept g callback p r
  unfolding free_unless_kept
  free_unless_kept-same p (dispatch_ok, w) = refl
  free_unless_kept-same p (dispatch_error, w) = refl
  free_unless_kept-same p (dispatch_do_not_free, w) = refl

  dispatch_msg-agree :
      (o : Option e.Handler) (p_rxer p : ℕ) (w : World e)
      → ((h : e.Handler) → o ≡ some h → f h p_rxer p w ≡ g h p_rxer p w)
      → dispatch_msg f callback o p_rxer p w ≡ dispatch_msg g callback o p_rxer p w
  unfolding dispatch_msg
  dispatch_msg-agree none p_rxer p w agree =
      free_unless_kept-same p (sys_unknown_msg_handler p_rxer p w)
  dispatch_msg-agree (some h) p_rxer p w agree =
      rw (agree h refl, run_msg_callback-same p (g h p_rxer p w).1)
        (free_unless_kept-same p
          ((g h p_rxer p w).0, run_msg_callback g callback p (g h p_rxer p w).1))

  -- Two families of handlers that agree where `msg_receiver` calls them make it do the same.
  pub msg_receiver-agree :
      (p_rxer : ℕ) (w : World e)
      → let rxer = w.recv p_rxer in
        let r = get_at rxer.p_queue (if w.in_isr then no_wait else rxer.rx_block_ticks) w in
        let p = if is_zero r.0 then r.1 else 0 in
        ((h : e.Handler) → asked w p_rxer p r.2 ≡ some h → f h p_rxer p r.2 ≡ g h p_rxer p r.2)
        → msg_receiver f callback p_rxer w ≡ msg_receiver g callback p_rxer w
  unfolding msg_receiver msg_recv
  msg_receiver-agree p_rxer w agree =
      let rxer = w.recv p_rxer in
      let r = get_at rxer.p_queue (if w.in_isr then no_wait else rxer.rx_block_ticks) w in
      let p = if is_zero r.0 then r.1 else 0 in
      if_elim
        (λ (x : ℤ × Option ℕ × World e).
          (if p_rxer == 0 then w else handled_by f callback p_rxer w x)
          ≡ (if p_rxer == 0 then w else handled_by g callback p_rxer w x))
        (rxer.p_queue == 0) (λ _. refl)
        (λ _. if_else (p_rxer == 0) w (
          same_else (is_zero r.0 && not (p == 0)) r.2
            (dispatch_msg-agree (asked w p_rxer p r.2) p_rxer p r.2 agree)))
