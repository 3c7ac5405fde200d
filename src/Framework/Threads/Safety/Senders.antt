-- ===== src/Framework/Threads/Safety/Senders.antt =====
-- The safety of the senders' steps.
use zephyr_project.Framework.BufferPool.Heap.{bph_size_pos}
use zephyr_project.Framework.Effect.{buffer_of}
use zephyr_project.Framework.Threads.{and_then, done, free_buffer}
use zephyr_project.Framework.Threads.Calls.{
  create_and_send_calls, free_on_error_calls, queue_calls, send_calls, periodic_timer_calls,
  reply_calls,
}
use zephyr_project.Framework.Threads.Safety.{
  Safe, and_then-Safe, drop, drop-gain, gain, EndsEmpty, drop-nothing, nothing,
}
use zephyr_project.Framework.Types.{max_msg_recvs, smc_invalid}
use zephyr_project.Framework.World.{Env, World}
use zephyr_project.Prelude.{
  Bool, Bool-cases, ap, arith, if_elim, if◌then◌else◌, inl, inr, leb, not, refl, true, ℕ, ◌==◌, ◌∙◌,
  ◌≡◌,
}
use zephyr_project.Prelude.Int.{is_zero, ℤ}
use Prim.{tt}

-- After an attempt to send the buffer of `b`: it is gone when the status is 0, else still held.
abbrev pub SentOr : ℕ → (ℕ → Bool) → ℤ → (ℕ → Bool) → Type 0
SentOr b held z h = h ≡ (if is_zero z then drop b held else held)

-- The buffer of a block is not at NULL.
pub not_null :
    (e : Env) {A : Type 0} (P : A → Type 0) (b : ℕ) (x y : A)
    → P y
    → P (if buffer_of e b == 0 then x else y)
not_null e P b x y h = rw (bph_size_pos e.platform.config b) h

module _ {e : Env} where
  queue_calls-Safe :
      (b q : ℕ) (held : ℕ → Bool) (s : World e)
      → held b ≡ true
      → Safe (SentOr b held) held (queue_calls s q (buffer_of e b))
  queue_calls-Safe b q held s mine =
      let P = Safe {e = e} (SentOr b held) held in
      if_elim P (q == 0) (λ _. refl)
        (λ _.
          if_elim P (buffer_of e b == 0) (λ _. refl)
            (λ _. (
              (b, refl, mine),
              λ m.
                  if_elim P (m.header.msg_code == smc_invalid) (λ _. refl)
                    (λ _. (b, refl, mine, λ z ok. rw ok refl, λ z bad. rw bad refl)),
            )))

  send_calls-Safe :
      (b rx : ℕ) (held : ℕ → Bool) (s : World e)
      → held b ≡ true
      → Safe (SentOr b held) held (send_calls s rx (buffer_of e b))
  send_calls-Safe b rx held s mine =
      let P = Safe {e = e} (SentOr b held) held in
      let entry = s.msg_task_registry rx in
      if_elim P (buffer_of e b == 0) (λ _. refl)
        (λ _.
          if_elim P (leb max_msg_recvs rx) (λ _. refl)
            (λ _.
              if_elim P (not entry.in_use) (λ _. refl)
                (λ _.
                  if_elim P (entry.p_msg_recv == 0) (λ _. refl)
                    (λ _. (
                      (b, refl, mine),
                      λ m. (
                        (b, refl, mine),
                        queue_calls-Safe b (s.recv entry.p_msg_recv).p_queue held s mine,
                      ),
                    )))))

  -- A send, and a free when it fails: the buffer is gone either way, and `left` are the others.
  pub sent_or_freed-Safe :
      (b rx : ℕ) (held left : ℕ → Bool) (s : World e)
      → held b ≡ true
      → drop b held ≡ left
      → Safe {A = ℤ}
          (λ z h. h ≡ left)
          held
          (and_then (send_calls s rx (buffer_of e b)) (free_on_error_calls s (buffer_of e b)))
  sent_or_freed-Safe b rx held left s mine others =
      and_then-Safe (λ z h. h ≡ left) (SentOr b held) (free_on_error_calls s (buffer_of e b)) held
        (send_calls s rx (buffer_of e b))
        (λ z h ends. elim (Bool-cases (is_zero z)) [
          | inl ok ↦ rw ok (ends ∙ rw ok others)
          | inr bad ↦
              let same : h ≡ held = ends ∙ rw bad refl in
              rw bad (b, refl, ap (λ (f : ℕ → Bool). f b) same ∙ mine, ap (drop b) same ∙ others)
        ])
        (send_calls-Safe b rx held s mine)

  -- `sysmsg_create_and_send` is safe, whatever else the thread holds: it ends with what it started
  -- with, whether the message was sent or not.
  pub create_and_send_calls-Safe :
      (tx rx code : ℕ) (held : ℕ → Bool) (s : World e)
      → Safe {A = ℤ} (λ z h. h ≡ held) held (create_and_send_calls s tx rx code)
  create_and_send_calls-Safe tx rx code' held s = (
    omega arith,
    refl,
    λ b free.
        let mine : gain b held b ≡ true = ground arith in
        not_null e (Safe {A = ℤ} (λ z h. h ≡ held) (gain b held)) b _ _ (
          (b, refl, mine),
          λ m. (
            (b, refl, mine),
            sent_or_freed-Safe b rx (gain b held) held s mine (drop-gain b held free),
          ),
        ),
  )

  -- `sysmsg_reply` is safe on a buffer that the thread holds: it ends without it.
  pub reply_calls-Safe :
      (b code : ℕ) (held : ℕ → Bool) (s : World e)
      → held b ≡ true
      → Safe {A = ℤ} (λ z h. h ≡ drop b held) held (reply_calls s (buffer_of e b) code)
  reply_calls-Safe b code' held s mine = (
    (b, refl, mine),
    λ m. ((b, refl, mine), sent_or_freed-Safe b m.header.tx_id held (drop b held) s mine refl),
  )

  -- The expiry of a task's timer is safe.
  pub periodic_timer_calls-Safe :
      (p_msg_task : ℕ) (s : World e) → Safe EndsEmpty nothing (periodic_timer_calls s p_msg_task)
  periodic_timer_calls-Safe p_msg_task s =
      let id = (s.recv (s.task p_msg_task).rxer).id in
      (
        omega arith,
        refl,
        λ b free.
            let mine : gain b nothing b ≡ true = ground arith in
            let p = buffer_of e b in
            let last = λ (z : ℤ). if is_zero z then done tt else free_buffer p (done tt) in
            not_null e (Safe {e = e} {A = Unit} EndsEmpty (gain b nothing)) b _ _ (
              (b, refl, mine),
              λ m. (
                (b, refl, mine),
                and_then-Safe EndsEmpty (SentOr b (gain b nothing)) last (gain b nothing)
                    (send_calls s id p)
                    (λ z h ends. elim (Bool-cases (is_zero z)) [
                      | inl ok ↦ rw ok (ends ∙ rw ok (drop-nothing b))
                      | inr bad ↦
                          let same : h ≡ gain b nothing = ends ∙ rw bad refl in
                          rw bad (
                            b,
                            refl,
                            ap (λ (f : ℕ → Bool). f b) same ∙ mine,
                            ap (drop b) same ∙ drop-nothing b,
                          )
                    ])
                    (send_calls-Safe b id (gain b nothing) s mine),
              ),
            ),
      )
