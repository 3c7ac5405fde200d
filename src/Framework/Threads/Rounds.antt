-- ===== src/Framework/Threads/Rounds.antt =====
-- A receiver's round, run alone, beside `msg_receiver`.
use Prim.Native.Nat.{bit_and}
use zephyr_project.Framework.Receiver.{
  call_back, dispatch_msg, free_unless_kept, msg_receiver, msg_recv, run_msg_callback,
  sys_unknown_msg_handler,
}
use zephyr_project.Framework.Threads.{Prog, and_then, get_at, read_msg, run_alone, done, get_from}
use zephyr_project.Framework.Threads.Calls.{
  callback_calls, dispatch_calls, free_calls, receiver_calls, words_calls,
}
use zephyr_project.Framework.Threads.Running.{first-branch, run-and_then}
use zephyr_project.Framework.Types.{
  DispatchResult, dispatch_do_not_free, dispatch_error, dispatch_ok, msg_option_callback,
}
use zephyr_project.Framework.World.{Env, World, get_msg}
use zephyr_project.Platform.{no_wait}
use zephyr_project.Prelude.{
  Bool-cases, List, Option, [], ap, if◌then◌else◌, inl, inr, none, refl, some, ℕ, ◌==◌, ◌∙◌, ◌∷◌,
  ◌≡◌, if_elim, not, ◌&&◌,
}
use Prim.{tt}
use zephyr_project.Prelude.Int.{is_zero, ℤ}
use zephyr_project.Framework.Threads.Agreement.{handled_by}

module _ {e : Env} where
  module _ (handler : e.Handler → ℕ → ℕ → Prog e DispatchResult)
      (callback : ℕ → ℕ → Prog e Unit) where
    abbrev pub run_handler : e.Handler → ℕ → ℕ → World e → DispatchResult × World e
    run_handler h r p w = run_alone (handler h r p) w

    abbrev pub run_callback : ℕ → ℕ → World e → World e
    run_callback cb arg w = (run_alone (callback cb arg) w).1

    run-words_calls :
        (words : List ℕ) (s w : World e)
        → (run_alone (words_calls s handler callback words) w).1
          ≡ call_back run_handler run_callback words w
    unfolding call_back
    run-words_calls [] s w = refl
    run-words_calls (cb ∷ []) s w = refl
    run-words_calls (cb ∷ (arg ∷ rest)) s w = first-branch (cb == 0) _ _ w refl refl

    run-free_calls :
        (p : ℕ) (res : DispatchResult) (s w : World e)
        → (run_alone (free_calls s handler callback p res) w).1
          ≡ free_unless_kept run_handler run_callback p (res, w)
    unfolding free_unless_kept
    run-free_calls p dispatch_ok s w = refl
    run-free_calls p dispatch_error s w = refl
    run-free_calls p dispatch_do_not_free s w = refl

    run-callback_calls :
        (p : ℕ) (s w : World e)
        → (run_alone (callback_calls s handler callback (get_msg w p)) w).1
          ≡ run_msg_callback run_handler run_callback p w
    unfolding run_msg_callback
    run-callback_calls p s w =
        let m = get_msg w p in
        first-branch (bit_and m.header.options msg_option_callback == 0) _ _ w refl
          (run-words_calls m.payload s w)

    run-dispatch_calls :
        (o : Option e.Handler) (p_rxer p : ℕ) (s w : World e)
        → (run_alone (dispatch_calls s handler callback o p_rxer p) w).1
          ≡ dispatch_msg run_handler run_callback o p_rxer p w
    unfolding dispatch_msg sys_unknown_msg_handler free_unless_kept
    run-dispatch_calls none p_rxer p s w = refl
    run-dispatch_calls (some h) p_rxer p s w =
        let r = run_handler h p_rxer p w in
        let c = callback_calls s handler callback (get_msg r.1 p) in
        ap (λ (x : Unit × World e). x.1)
          (run-and_then (handler h p_rxer p)
              (λ res. read_msg p (λ m.
                and_then (callback_calls s handler callback m)
                  (λ _. free_calls s handler callback p res)))
              w
            ∙ run-and_then c (λ _. free_calls s handler callback p r.0) r.1)
        ∙ run-free_calls p r.0 s (run_alone c r.1).1
        ∙ ap (λ (v : World e). free_unless_kept run_handler run_callback p (r.0, v))
            (run-callback_calls p s r.1)

    abbrev handled : ℕ → World e → ℤ × Option ℕ × World e → World e
    handled = handled_by run_handler run_callback

    abbrev received : ℕ → World e → Prog e Unit
    received p_rxer w =
        let rxer = w.recv p_rxer in
        let t = if w.in_isr then no_wait else rxer.rx_block_ticks in
        get_from rxer.p_queue t (λ z p.
          if is_zero z && not (p == 0)
          then read_msg p (λ m.
            dispatch_calls w handler callback
              (elim rxer.p_msg_dispatcher [
                | none ↦ none
                | some dispatch ↦ dispatch m.header.msg_code
              ])
              p_rxer p)
          else done tt)

    run-received :
        (p_rxer p : ℕ) (z : ℤ) (w v : World e)
        → (run_alone
            (if is_zero z && not (p == 0)
              then read_msg p (λ m.
                dispatch_calls w handler callback
                  (elim (w.recv p_rxer).p_msg_dispatcher [
                    | none ↦ none
                    | some dispatch ↦ dispatch m.header.msg_code
                  ])
                  p_rxer
                  p)
              else done tt)
            v).1
          ≡ handled p_rxer w (z, some (if is_zero z then p else 0), v)
    run-received p_rxer p z w v = elim (Bool-cases (is_zero z)) [
      | inl ok ↦
          let same : p ≡ (if is_zero z then p else 0) = rw ok refl in
          first-branch (is_zero z && not (p == 0)) _ _ v (run-dispatch_calls _ p_rxer p w v) refl
          ∙ ap (λ (x : ℕ). handled p_rxer w (z, some x, v)) same
      | inr bad ↦ rw bad refl
    ]

    run-receive :
        (p_rxer : ℕ) (w : World e)
        → let rxer = w.recv p_rxer in
          (run_alone (if rxer.p_queue == 0 then done tt else received p_rxer w) w).1
          ≡ handled p_rxer w (msg_recv rxer.p_queue (some 0) rxer.rx_block_ticks w)
    unfolding msg_recv
    run-receive p_rxer w =
        let rxer = w.recv p_rxer in
        let t = if w.in_isr then no_wait else rxer.rx_block_ticks in
        let r = get_at rxer.p_queue t w in
        if_elim
          (λ x.
            (run_alone (if rxer.p_queue == 0 then done tt else received p_rxer w) w).1
            ≡ handled p_rxer w x)
          (rxer.p_queue == 0) (λ h. rw h refl) (λ h. rw h (run-received p_rxer r.1 r.0 w r.2))

    -- Run alone, the steps of a receiver's round do what `msg_receiver` does, with the handlers and
    -- callbacks that their programs are.
    pub run-receiver_calls :
        (p_rxer : ℕ) (w : World e)
        → (run_alone (receiver_calls w handler callback p_rxer) w).1
          ≡ msg_receiver run_handler run_callback p_rxer w
    unfolding msg_receiver
    run-receiver_calls p_rxer w = first-branch (p_rxer == 0) _ _ w refl (run-receive p_rxer w)
