-- ===== src/Framework/SysMsg/Release.antt =====
-- The senders of sys_msg.c that are given a message: they queue it, or free it.
use zephyr_project.Framework.BufferPool.{Pool, bph_size}
use zephyr_project.Framework.Effect.{Queued, buffer_of, Released, Stays}
use zephyr_project.Framework.SysCore.Sending.{SendsAs, msg_send-SendsAs, queue_at}
use zephyr_project.Framework.SysMsg.{deallocate_on_error, sysmsg_reply, sysmsg_sendto}
use zephyr_project.Framework.Types.{MsgHeader}
use zephyr_project.Framework.World.{Env, World, get_msg, set_header, set_rx_id}
use zephyr_project.Prelude.{==_refl, ap, arith, false, inl, inr, refl, true, ℕ, ◌+◌, ◌∙◌, ◌≡◌, ◌⊎◌}
use zephyr_project.Prelude.Int.{is_zero, ℤ}
use zephyr_project.Framework.SysCore.NewBuffer.{free_msg-Released}

module _ {e : Env} where
  -- The buffer of block `b` stands at the end of the queue at `q` with the header `h`, or was freed.
  abbrev pub Hands : World e → ℕ → ℕ → MsgHeader → ℤ × World e → Type 0
  Hands w q b h r =
      ((is_zero r.0 ≡ true)
        × Queued w r.1 q (buffer_of e b)
        × ((get_msg r.1 (buffer_of e b)).header ≡ h))
      ⊎ ((is_zero r.0 ≡ false) × Released w r.1 b)

  -- `w₁` is `w` with the message's header written.
  deallocate_on_error-Hands :
      (w w₁ : World e) (id q b : ℕ) (h : MsgHeader) (r : ℤ × World e)
      → Stays w w₁ (buffer_of e b)
      → w₁.pool.heap ≡ w.pool.heap
      → (get_msg (set_rx_id (buffer_of e b) id w₁) (buffer_of e b)).header ≡ h
      → SendsAs w₁ id q (buffer_of e b) r
      → Hands w q b h (deallocate_on_error (buffer_of e b) r)
  unfolding deallocate_on_error
  deallocate_on_error-Hands w w₁ id q b h r k heap wrote (inl (z, s, m)) = rw z (
      inl (
        z,
        record {
          heap = s.heap ∙ heap;
          contents = λ a. ground (arith, s.contents a, k.contents a, k.contents q);
          setup = (s.setup.0 ∙ k.setup.0, s.setup.1 ∙ k.setup.1);
        },
        ap (λ (x : Pool e.platform). (x.mem (buffer_of e b)).header) m ∙ wrote,
      ))
  deallocate_on_error-Hands w w₁ id q b h r k heap wrote (inr (z, u)) =
      let f = free_msg-Released b r.1 in
      rw z (
        inr (
          z,
          record {
            held = λ a. ground (arith, f.held a, u.held a, k.held a);
            contents = λ a. f.contents a ∙ u.contents a ∙ k.contents a;
            other = λ p. ground (arith, f.other p, u.other p, k.other p);
            setup = (u.setup.0 ∙ k.setup.0, u.setup.1 ∙ k.setup.1);
          },
        ))

  -- Writing at `p` changes no other message.
  set_header-Stays : (p : ℕ) (h : MsgHeader) (w : World e) → Stays w (set_header p h w) p
  set_header-Stays p h w = record {
    held = λ b. refl;
    contents = λ a. refl;
    other = λ a. ground arith;
    setup = (refl, refl);
  }

  -- A reply goes to the task that sent the message: with status 0 the buffer stands at the end of the
  -- queue of the receiver registered under the old sender's id, with the new code, the sender and
  -- the receiver exchanged and the options kept, and nothing else is changed in the heap or in a
  -- queue; with any other status the buffer is freed, and nothing else is changed there.
  pub sysmsg_reply-Hands :
      (b code : ℕ) (w : World e)
      → let h = (get_msg w (buffer_of e b)).header in
        Hands w
          (queue_at w h.tx_id)
          b
          (record { msg_code = code; rx_id = h.tx_id; tx_id = h.rx_id; options = h.options })
          (sysmsg_reply (buffer_of e b) code w)
  unfolding sysmsg_reply
  sysmsg_reply-Hands b code' w =
      let p = buffer_of e b in
      let h = (get_msg w p).header in
      let w₁ = set_header p (record h { rx_id = h.tx_id; tx_id = h.rx_id; msg_code = code' }) w in
      rw (==_refl (b + bph_size e.platform.config)) (
        deallocate_on_error-Hands w w₁ h.tx_id (queue_at w h.tx_id) b _ _ (set_header-Stays p _ w)
          refl (ground arith) (msg_send-SendsAs h.tx_id p w₁))

  -- `sysmsg_sendto` sends to the given id, whatever the message's receiver was: with status 0 the
  -- buffer stands at the end of the queue of the receiver registered under that id, with that id in
  -- its header, and nothing else is changed in the heap or in a queue; with any other status the
  -- buffer is freed, and nothing else is changed there.
  pub sysmsg_sendto-Hands :
      (b dest : ℕ) (w : World e)
      → Hands w
          (queue_at w dest)
          b
          (record ((get_msg w (buffer_of e b)).header) { rx_id = dest })
          (sysmsg_sendto (buffer_of e b) dest w)
  unfolding sysmsg_sendto
  sysmsg_sendto-Hands b dest w =
      let p = buffer_of e b in
      rw (==_refl (b + bph_size e.platform.config)) (
        deallocate_on_error-Hands w (set_rx_id p dest w) dest (queue_at w dest) b _ _
          (set_header-Stays p _ w) refl (ground arith)
          (msg_send-SendsAs dest p (set_rx_id p dest w)))
