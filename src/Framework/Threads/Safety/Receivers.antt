-- ===== src/Framework/Threads/Safety/Receivers.antt =====
-- The safety of a receiver's round, given that of its handlers and callbacks.
use Prim.{tt}
use Prim.Native.Nat.{bit_and}
use zephyr_project.Framework.BufferPool.Heap.{bph_size_pos}
use zephyr_project.Framework.Effect.{buffer_of}
use zephyr_project.Framework.Threads.{Prog, done, free_buffer}
use zephyr_project.Framework.Threads.Calls.{
  callback_calls, dispatch_calls, free_calls, receiver_calls, words_calls,
}
use zephyr_project.Framework.Threads.Safety.{
  EndsEmpty, Safe, and_then-Safe, drop-nothing, gain, nothing,
}
use zephyr_project.Framework.Types.{
  DispatchResult, Msg, dispatch_do_not_free, dispatch_error, dispatch_ok, msg_option_callback,
}
use zephyr_project.Framework.World.{Env, World}
use zephyr_project.Prelude.{
  List, Option, [], arith, if_elim, none, not, refl, some, true, ℕ, ◌==◌, ◌∷◌, ◌≡◌, ◌≢◌,
}

module _ {e : Env} (handler : e.Handler → ℕ → ℕ → Prog e DispatchResult)
    (callback : ℕ → ℕ → Prog e Unit) where
  -- With the message's buffer in hand a handler is safe, gives the buffer back and asks for it to be
  -- freed; a callback is safe and gives the buffer back.
  pub record HandlesSafely : Type 0 where
    pub of_handler :
        (h : e.Handler) (p_rxer b : ℕ)
        → Safe
            (λ res held. (held ≡ gain b nothing) × (res ≢ dispatch_do_not_free))
            (gain b nothing)
            (handler h p_rxer (buffer_of e b))
    pub of_callback :
        (cb arg b : ℕ) → Safe (λ x held. held ≡ gain b nothing) (gain b nothing) (callback cb arg)

  module _ (safely : HandlesSafely) (s : World e) (b : ℕ) where
    has_it : gain b nothing b ≡ true
    has_it = ground arith

    words_calls-Safe :
        (words : List ℕ)
        → Safe {A = Unit}
            (λ x held. held ≡ gain b nothing)
            (gain b nothing)
            (words_calls s handler callback words)
    words_calls-Safe [] = refl
    words_calls-Safe (cb ∷ []) = refl
    words_calls-Safe (cb ∷ (arg ∷ rest)) =
        if_elim (Safe {e = e} {A = Unit} (λ x held. held ≡ gain b nothing) (gain b nothing))
          (cb == 0) (λ _. refl) (λ _. safely.of_callback cb arg b)

    callback_calls-Safe :
        (m : Msg)
        → Safe {A = Unit}
            (λ x held. held ≡ gain b nothing)
            (gain b nothing)
            (callback_calls s handler callback m)
    callback_calls-Safe m =
        if_elim (Safe {e = e} {A = Unit} (λ x held. held ≡ gain b nothing) (gain b nothing))
          (bit_and m.header.options msg_option_callback == 0) (λ _. refl)
          (λ _. words_calls-Safe m.payload)

    freed-Safe :
        Safe {e = e} {A = Unit} EndsEmpty (gain b nothing) (free_buffer (buffer_of e b) (done tt))
    freed-Safe = (b, refl, has_it, drop-nothing b)

    free_calls-Safe :
        (res : DispatchResult)
        → res ≢ dispatch_do_not_free
        → Safe {A = Unit} EndsEmpty
            (gain b nothing)
            (free_calls s handler callback (buffer_of e b) res)
    free_calls-Safe dispatch_ok h = freed-Safe
    free_calls-Safe dispatch_error h = freed-Safe
    free_calls-Safe dispatch_do_not_free h = absurd (h refl)

    dispatch_calls-Safe :
        (o : Option e.Handler) (p_rxer : ℕ)
        → Safe {A = Unit} EndsEmpty
            (gain b nothing)
            (dispatch_calls s handler callback o p_rxer (buffer_of e b))
    dispatch_calls-Safe none p_rxer = freed-Safe
    dispatch_calls-Safe (some h) p_rxer =
        and_then-Safe EndsEmpty _ _ (gain b nothing) (handler h p_rxer (buffer_of e b))
          (λ res held (same, not_kept). rw same (
            (b, refl, has_it),
            λ m.
                and_then-Safe EndsEmpty (λ x held. held ≡ gain b nothing) _ (gain b nothing)
                  (callback_calls s handler callback m)
                  (λ x held' same'. rw same' (free_calls-Safe res not_kept))
                  (callback_calls-Safe m),
          ))
          (safely.of_handler h p_rxer b)

  -- When its handlers and callbacks are safe and leave the freeing to it, a receiver's round is safe:
  -- it starts and ends with nothing in its hands.
  pub receiver_calls-Safe :
      (safely : HandlesSafely) (s : World e) (p_rxer : ℕ)
      → Safe EndsEmpty nothing (receiver_calls s handler callback p_rxer)
  receiver_calls-Safe safely s p_rxer =
      let rxer = s.recv p_rxer in
      let P = Safe {e = e} {A = Unit} EndsEmpty nothing in
      let ask : Msg → Option e.Handler = λ m. elim rxer.p_msg_dispatcher [
        | none ↦ none
        | some dispatch ↦ dispatch m.header.msg_code
      ] in
      if_elim P (p_rxer == 0) (λ _. refl)
        (λ _.
          if_elim P (rxer.p_queue == 0) (λ _. refl)
            (λ _. (
              λ z p bad. rw bad refl,
              λ z b ok free. rw ok (
                  if_elim (Safe {e = e} {A = Unit} EndsEmpty (gain b nothing))
                    (not (buffer_of e b == 0))
                    (λ _. (
                      (b, refl, has_it safely s b),
                      λ m. dispatch_calls-Safe safely s b (ask m) p_rxer,
                    ))
                    (λ is_null. absurd (ground (arith, bph_size_pos e.platform.config b)))),
            )))
