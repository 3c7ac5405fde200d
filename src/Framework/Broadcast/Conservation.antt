-- ===== src/Framework/Broadcast/Conservation.antt =====
-- The buffers and the queues before and after a broadcast.
use zephyr_project.Framework.Broadcast.{
  broadcast_copy, broadcast_from, broadcast_one, copy_msg, accepts, msg_broadcast,
}
use zephyr_project.Framework.BufferPool.{Pool, zeroed}
use zephyr_project.Framework.BufferPool.Heap.{Taken, bph_size_pos, try_to_take-Takes}
use zephyr_project.Framework.Effect.{stay, Delivered, Unmoved, buffer_of, live, queued, Released}
use zephyr_project.Framework.SysCore.Sending.{queue_as-SendsAs}
use zephyr_project.Framework.Types.{Msg, MsgRecv, sys_error}
use zephyr_project.Framework.World.{Env, World, set_pool, get_msg, set_msg}
use zephyr_project.Prelude.{
  Bool, Bool-cases, List, [], ap, append-nil, append_assoc, arith, false, if◌then◌else◌, inl, inr,
  suc, sym, true, zero, ℕ, ◌++◌, ◌==◌, ◌∙◌, ◌∷◌, ◌≡◌, ◌⊎◌, Option-cases, if_elim, not,
}
use zephyr_project.Prelude.Int.{ℤ, is_zero}
use zephyr_project.Framework.SysCore.{handler_at}
use zephyr_project.Framework.SysCore.NewBuffer.{
  Creates, new_buffer-Creates, free_msg-Released, take_fails-Unmoved, take_succeeds-Filled,
}
use zephyr_project.Framework.Deliveries.{Creates-Deliveries, Deliveries, next, quiet, sent}

abbrev pub contains : ℕ → List ℕ → Bool
contains p [] = false
contains p (x ∷ xs) = if x == p then true else contains p xs

contains-append_left :
    (p : ℕ) (xs ys : List ℕ) → contains p xs ≡ true → contains p (xs ++ ys) ≡ true
contains-append_left p [] ys h = cc
contains-append_left p (x ∷ xs) ys h = ground (arith, contains-append_left p xs ys)

contains-append_self : (p : ℕ) (xs : List ℕ) → contains p (xs ++ p ∷ []) ≡ true
contains-append_self p [] = ground arith
contains-append_self p (x ∷ xs) = ground (arith, contains-append_self p xs)

-- The copy that a receiver gets: the message with the receiver's id.
abbrev pub copy_for : {H : Type 0} → ℕ → Msg → MsgRecv H → Msg
copy_for size m rxer =
    let c = copy_msg size (zeroed size) m in
    record c { header = record (c.header) { rx_id = rxer.id } }

module _ {e : Env} where
  -- Every block is as in `w`, or allocated with its buffer in a queue, and the queues only grow at
  -- their ends.
  pub record Grows (w w' : World e) : Type 0 where
    pub blocks :
        (b : ℕ)
        → (live w' b ≡ live w b)
          ⊎ ((live w' b ≡ true) × ((q : ℕ) × (contains (buffer_of e b) (queued w' q) ≡ true)))
    pub extends : (q : ℕ) → (ps : List ℕ) × (queued w' q ≡ queued w q ++ ps)

  Unmoved-Grows : {w w' : World e} → Unmoved w w' → Grows w w'
  Unmoved-Grows u = record {
    blocks = λ b. inl (u.held b);
    extends = λ q. ([], u.contents q ∙ sym (append-nil _));
  }

  Delivered-Grows : {w w' : World e} (b q : ℕ) {m : Msg} → Delivered w w' b q m → Grows w w'
  Delivered-Grows {w} {w'} b q d = record {
    blocks = λ a. elim (Bool-cases (a == b)) [
      | inl same ↦ inr (
        ground (arith, d.held a),
        (q, ground (arith, d.contents q, contains-append_self (buffer_of e b) (queued w q))),
      )
      | inr other ↦ inl (ground (arith, d.held a))
    ];
    extends = λ a. elim (Bool-cases (a == q)) [
      | inl same ↦ (buffer_of e b ∷ [], ground (arith, d.contents a))
      | inr other ↦ ([], ground (arith, d.contents a, append-nil (queued w a)))
    ];
  }

  Grows-trans : {u v w : World e} → Grows u v → Grows v w → Grows u w
  Grows-trans {u} {v} {w} g h = record {
    blocks = λ b. elim (h.blocks b) [
      | inl same ↦ elim (g.blocks b) [
        | inl same' ↦ inl (same ∙ same')
        | inr (l, (q, c)) ↦ inr (
          same ∙ l,
          (q, rw ((h.extends q).1) (contains-append_left (buffer_of e b) (queued v q) _ c)),
        )
      ]
      | inr new ↦ inr new
    ];
    extends = λ q.
        let (ps, x) = g.extends q in
        let (qs, y) = h.extends q in
        (ps ++ qs, y ∙ ap (λ (l : List ℕ). l ++ qs) x ∙ append_assoc (queued u q) ps qs);
  }

  pub Deliveries-Grows : {u w : World e} → Deliveries u w → Grows u w
  Deliveries-Grows (quiet u) = Unmoved-Grows u
  Deliveries-Grows (sent b q m d) = Delivered-Grows b q d
  Deliveries-Grows (next g h) = Grows-trans (Deliveries-Grows g) (Deliveries-Grows h)

  broadcast_copy-Creates :
      (p_msg size b : ℕ) (rxer : MsgRecv e.Handler) (w : World e) (s : Pool e.platform)
      → Taken {p = e.platform} size b w.pool s
      → Creates w rxer.p_queue
          (copy_for size (s.mem p_msg) rxer)
          (broadcast_copy p_msg size rxer (buffer_of e b) (set_pool s w))
  unfolding broadcast_copy
  broadcast_copy-Creates p_msg size b rxer w s t =
      let w₀ = set_pool s w in
      let p = buffer_of e b in
      let w₁ = set_msg p (copy_msg size (get_msg w₀ p) (get_msg w₀ p_msg)) w₀ in
      new_buffer-Creates w w₁ b rxer.p_queue rxer.id (copy_for size (s.mem p_msg) rxer) _
        (take_succeeds-Filled _ b w _ w₁.pool.mem t (λ a. ground arith))
        (ground (arith, ap (λ (f : ℕ → Msg). f p) t.written))
        (queue_as-SendsAs w₁ rxer.id rxer.p_queue p)

  broadcast_one-Deliveries :
      (p_msg size i : ℕ) (ret : ℤ) (w : World e) → Deliveries w (broadcast_one p_msg size i ret w).1
  unfolding broadcast_one
  broadcast_one-Deliveries p_msg size i ret w =
      let rxer = w.recv (w.msg_task_registry i).p_msg_recv in
      let same : Deliveries w w = quiet (stay w) in
      let P = λ (r : ℤ × World e). Deliveries w r.1 in
      elim (Option-cases (handler_at w i (get_msg w p_msg).header.msg_code)) [
        | inl e' ↦ rw (e', broadcast_one) same
        | inr (h, e') ↦
            rw (e', broadcast_one)
              (if_elim P (not (accepts rxer (get_msg w p_msg))) (λ _. same)
                (λ _. elim (try_to_take-Takes size w.pool) [
                  | inl (z, x) ↦ rw z (quiet (take_fails-Unmoved w _ x))
                  | inr (b, z, x) ↦
                      rw (z, bph_size_pos e.platform.config b)
                        (Creates-Deliveries rxer.p_queue _ _
                          (broadcast_copy-Creates p_msg size b rxer w _ x))
                ]))
      ]

  broadcast_from-Deliveries :
      (left i p_msg size : ℕ) (ret : ℤ) (w : World e)
      → Deliveries w (broadcast_from left i p_msg size ret w).1
  unfolding broadcast_from
  broadcast_from-Deliveries zero i p_msg size ret w = quiet (stay w)
  broadcast_from-Deliveries (suc left) i p_msg size ret w =
      next (broadcast_one-Deliveries p_msg size i ret w)
        (broadcast_from-Deliveries left (suc i) p_msg size _ _)

  -- Whatever the receivers answer, all that `msg_broadcast` does to blocks and queues is to create
  -- messages and, with status 0, to free the original: no other block is freed, every new block is
  -- that of a buffer in a queue, and no queue loses a message.
  pub msg_broadcast_conserves :
      (b size : ℕ) (w : World e)
      → let r = msg_broadcast (buffer_of e b) size w in
        ((is_zero r.0 ≡ true) × ((w₁ : World e) × Deliveries w w₁ × Grows w w₁ × Released w₁ r.1 b))
        ⊎ ((is_zero r.0 ≡ false) × Deliveries w r.1 × Grows w r.1)
  unfolding msg_broadcast
  msg_broadcast_conserves b size w =
      let r = broadcast_from 31 1 (buffer_of e b) size sys_error w in
      let d = broadcast_from-Deliveries 31 1 (buffer_of e b) size sys_error w in
      rw (bph_size_pos e.platform.config b) (elim (Bool-cases (is_zero r.0)) [
        | inl z ↦ rw z (inl (z, (r.1, d, Deliveries-Grows d, free_msg-Released b r.1)))
        | inr z ↦ rw z (inr (z, d, Deliveries-Grows d))
      ])
