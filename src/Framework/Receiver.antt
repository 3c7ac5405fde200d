-- ===== src/Framework/Receiver.antt =====
-- The receiving side of lib/framework/sys_core.c: `msg_recv`, `msg_receiver`, `msg_flush`.
pub mod Flush
pub mod Dispatch
use Prim.Native.Nat.{bit_and}
use zephyr_project.Prelude.{
  ℕ, zero, suc, ◌+◌, ◌&&◌, not, Option, none, some, ◌∷◌, ◌==◌, leb, if◌then◌else◌, update, List, [],
}
use zephyr_project.Prelude.Int.{ℤ, pos, is_zero}
use zephyr_project.Platform.{Timeout, no_wait}
use zephyr_project.Framework.Types.{
  DispatchResult, dispatch_error, dispatch_do_not_free, sys_error, msg_option_callback,
  max_msg_recvs,
}
use zephyr_project.Framework.BufferPool.{buffer_pool_free}
use zephyr_project.Framework.World.{Env, World, get_msg, set_pool}
use zephyr_project.Config.SysCfg.Store.{got}

module _ {e : Env} where
  -- The status, what the variable behind `pp_data` holds afterwards, and the state.
  unfoldable pub msg_recv : ℕ → Option ℕ → Timeout → World e → ℤ × Option ℕ × World e
  msg_recv p_queue none block_ticks w = (sys_error, none, w)
  msg_recv p_queue (some p_msg) block_ticks w =
      let t = if w.in_isr then no_wait else block_ticks in
      let r = e.platform.k_msgq_get (w.queue p_queue) t in
      if p_queue == 0 then (sys_error, some p_msg, w) else (
        r.0,
        some (if is_zero r.0 then r.1 else p_msg),
        record w { queue = update w.queue p_queue r.2 },
      )

  -- 1 when there is nothing in the queue, or no such queue.
  unfoldable pub msg_queue_is_empty : ℕ → World e → ℤ
  msg_queue_is_empty rx_id w =
      let entry = w.msg_task_registry rx_id in
      if leb max_msg_recvs rx_id
      then pos 1
      else if not entry.in_use
      then pos 1
      else if e.platform.k_msgq_num_used_get (w.queue (w.recv entry.p_msg_recv).p_queue) == 0
      then pos 1
      else pos 0

  -- The `while (true)` of `msg_flush` on a queue, with fuel: none when the fuel runs out.
  unfoldable pub flush_loop : ℕ → ℕ → ℕ → World e → Option (ℕ × World e)
  flush_loop zero p_queue purged w = none
  flush_loop (suc fuel) p_queue purged w =
      let r = e.platform.k_msgq_get (w.queue p_queue) no_wait in
      let p_msg = if is_zero r.0 then r.1 else 0 in
      let got = record w { queue = update w.queue p_queue r.2 } in
      let rest =
        flush_loop fuel p_queue (purged + 1)
          (set_pool (buffer_pool_free e.platform p_msg w.pool) got) in
      if p_msg == 0 then some (purged, got) else rest

  unfoldable pub msg_flush : ℕ → ℕ → World e → Option (ℕ × World e)
  msg_flush fuel rx_id w =
      let entry = w.msg_task_registry rx_id in
      let purged = flush_loop fuel (w.recv entry.p_msg_recv).p_queue 0 w in
      if leb max_msg_recvs rx_id
      then some (0, w)
      else if not entry.in_use
      then some (0, w)
      else purged

  unfoldable pub sys_unknown_msg_handler : ℕ → ℕ → World e → DispatchResult × World e
  sys_unknown_msg_handler p_msg_rxer p_msg w = (dispatch_error, w)

  -- What a handler does, and what a callback does with its data word.
  module _ (run_handler : e.Handler → ℕ → ℕ → World e → DispatchResult × World e)
      (run_callback : ℕ → ℕ → World e → World e) where
    -- The payload of a cb_msg_t holds the callback's address and the data.
    unfoldable pub call_back : List ℕ → World e → World e
    call_back [] w = w
    call_back (callback ∷ []) w = w
    call_back (callback ∷ (arg ∷ rest)) w = if callback == 0 then w else run_callback callback arg w

    unfoldable pub run_msg_callback : ℕ → World e → World e
    run_msg_callback p_msg w =
        let m = get_msg w p_msg in
        if bit_and m.header.options msg_option_callback == 0 then w else call_back m.payload w

    unfoldable pub free_unless_kept : ℕ → DispatchResult × World e → World e
    free_unless_kept p_msg (dispatch_do_not_free, w) = w
    free_unless_kept p_msg (_, w) = set_pool (buffer_pool_free e.platform p_msg w.pool) w

    unfoldable pub dispatch_msg : Option e.Handler → ℕ → ℕ → World e → World e
    unfolding free_unless_kept
    dispatch_msg none p_rxer p_msg w =
        free_unless_kept p_msg (sys_unknown_msg_handler p_rxer p_msg w)
    dispatch_msg (some h) p_rxer p_msg w =
        let r = run_handler h p_rxer p_msg w in
        free_unless_kept p_msg (r.0, run_msg_callback p_msg r.1)

    -- A NULL dispatcher is never registered with a running task; here it finds no handler.
    unfoldable pub msg_receiver : ℕ → World e → World e
    msg_receiver p_rxer w =
        let rxer = w.recv p_rxer in
        let r = msg_recv rxer.p_queue (some 0) rxer.rx_block_ticks w in
        if p_rxer == 0 then w else elim r.1 [
          | none ↦ r.2
          | some p_msg ↦
              if is_zero r.0 && not (p_msg == 0)
              then dispatch_msg
                  (elim rxer.p_msg_dispatcher [
                    | none ↦ none
                    | some dispatch ↦ dispatch (get_msg r.2 p_msg).header.msg_code
                  ])
                  p_rxer p_msg r.2
              else r.2
        ]
