-- ===== src/Framework/Threads/Calls.antt =====
-- The senders of sys_core.c and sys_msg.c and `msg_receiver`, step by step. `s` is the state in which
-- the receivers are looked up: they stay as they are.
use Prim.Native.Char.{code}
use zephyr_project.Framework.Threads.{
  Prog, and_then, by_take, done, free_buffer, put_msg, read_msg, take_buffer, write_msg, by_try,
  get_from,
}
use zephyr_project.Framework.Types.{
  max_msg_recvs, msg_id_reserved, msg_option_none, sizeof_msg, smc_invalid, sys_error,
  DispatchResult, Msg, dispatch_do_not_free, msg_option_callback, smc_periodic,
}
use zephyr_project.Framework.World.{Env, World}
use zephyr_project.Platform.{no_wait}
use zephyr_project.Prelude.{
  if◌then◌else◌, leb, not, ℕ, ◌==◌, List, Option, [], none, some, ◌&&◌, ◌∷◌,
}
use zephyr_project.Prelude.Int.{is_zero, ℤ}
use Prim.{tt}
use Prim.Native.Nat.{bit_and}

module _ {e : Env} (s : World e) where
  abbrev pub set_rx_id_calls : {A : Type 0} → ℕ → ℕ → Prog e A → Prog e A
  set_rx_id_calls p id k = read_msg p (λ m.
      write_msg p (record { header = record (m.header) { rx_id = id }; payload = m.payload }) k)

  abbrev pub queue_calls : ℕ → ℕ → Prog e ℤ
  queue_calls q p =
      if q == 0
      then done sys_error
      else if p == 0
      then done sys_error
      else read_msg p (λ m.
        if m.header.msg_code == smc_invalid
        then done sys_error
        else put_msg q p (if s.in_isr then no_wait else no_wait) done)

  abbrev pub send_calls : ℕ → ℕ → Prog e ℤ
  send_calls rx p =
      let entry = s.msg_task_registry rx in
      if p == 0
      then done sys_error
      else if leb max_msg_recvs rx
      then done sys_error
      else if not entry.in_use
      then done sys_error
      else if entry.p_msg_recv == 0
      then done sys_error
      else set_rx_id_calls p rx (queue_calls (s.recv entry.p_msg_recv).p_queue p)

  abbrev pub free_on_error_calls : ℕ → ℤ → Prog e ℤ
  free_on_error_calls p z = if is_zero z then done z else free_buffer p (done z)

  abbrev pub header_calls : {A : Type 0} → ℕ → ℕ → ℕ → Prog e A → Prog e A
  header_calls p code tx k = read_msg p (λ m.
      write_msg p
        (record {
          header = record {
            msg_code = code;
            rx_id = msg_id_reserved;
            tx_id = tx;
            options = msg_option_none;
          };
          payload = m.payload;
        })
        k)

  -- sysmsg_create_and_send
  abbrev pub create_and_send_calls : ℕ → ℕ → ℕ → Prog e ℤ
  create_and_send_calls tx rx code' = take_buffer by_take sizeof_msg (λ p.
      if p == 0
      then done sys_error
      else header_calls p code' tx (and_then (send_calls rx p) (free_on_error_calls p)))

  -- sysmsg_reply
  abbrev pub reply_calls : ℕ → ℕ → Prog e ℤ
  reply_calls p code' = read_msg p (λ m.
      let h = m.header in
      write_msg p
        (record {
          header = record h { rx_id = h.tx_id; tx_id = h.rx_id; msg_code = code' };
          payload = m.payload;
        })
        (and_then (send_calls h.tx_id p) (free_on_error_calls p)))

  -- periodic_timer_callback_isr, on the address of the expired timer's task
  abbrev pub periodic_timer_calls : ℕ → Prog e Unit
  periodic_timer_calls p_msg_task =
      let id = (s.recv (s.task p_msg_task).rxer).id in
      take_buffer by_try sizeof_msg (λ p.
        if p == 0
        then done tt
        else read_msg p (λ m.
          write_msg p
            (record m {
              header = record (m.header) { msg_code = smc_periodic; rx_id = id; tx_id = id };
            })
            (and_then (send_calls id p)
              (λ z. if is_zero z then done tt else free_buffer p (done tt)))))

  -- The receiver's round. What a handler and a callback do are programs.
  module _ (handler : e.Handler → ℕ → ℕ → Prog e DispatchResult)
      (callback : ℕ → ℕ → Prog e Unit) where
    abbrev pub words_calls : List ℕ → Prog e Unit
    words_calls [] = done tt
    words_calls (cb ∷ []) = done tt
    words_calls (cb ∷ (arg ∷ rest)) = if cb == 0 then done tt else callback cb arg

    abbrev pub callback_calls : Msg → Prog e Unit
    callback_calls m =
        if bit_and m.header.options msg_option_callback == 0 then done tt else words_calls m.payload

    abbrev pub free_calls : ℕ → DispatchResult → Prog e Unit
    free_calls p dispatch_do_not_free = done tt
    free_calls p _ = free_buffer p (done tt)

    abbrev pub dispatch_calls : Option e.Handler → ℕ → ℕ → Prog e Unit
    dispatch_calls none p_rxer p = free_buffer p (done tt)
    dispatch_calls (some h) p_rxer p =
        and_then (handler h p_rxer p)
          (λ res. read_msg p (λ m. and_then (callback_calls m) (λ _. free_calls p res)))

    -- msg_receiver
    abbrev pub receiver_calls : ℕ → Prog e Unit
    receiver_calls p_rxer =
        let rxer = s.recv p_rxer in
        if p_rxer == 0
        then done tt
        else if rxer.p_queue == 0
        then done tt
        else get_from rxer.p_queue (if s.in_isr then no_wait else rxer.rx_block_ticks) (λ z p.
          if is_zero z && not (p == 0)
          then read_msg p (λ m.
            dispatch_calls
              (elim rxer.p_msg_dispatcher [
                | none ↦ none
                | some dispatch ↦ dispatch m.header.msg_code
              ])
              p_rxer p)
          else done tt)
