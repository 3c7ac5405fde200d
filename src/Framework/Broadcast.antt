-- ===== src/Framework/Broadcast.antt =====
-- `msg_broadcast` of lib/framework/sys_core.c.
pub mod Conservation
use zephyr_project.Prelude.{
  ℕ, zero, suc, ◌-◌, ◌/◌, Bool, true, not, none, some, ◌==◌, ltb, if◌then◌else◌, take,
}
use zephyr_project.Prelude.Int.{ℤ, is_zero}
use zephyr_project.Platform.{no_wait}
use zephyr_project.Framework.Types.{Msg, MsgRecv, sys_error, msg_id_app_start, max_msg_recvs}
use zephyr_project.Framework.BufferPool.{buffer_pool_try_to_take, buffer_pool_free}
use zephyr_project.Framework.World.{Env, World, get_msg, set_msg, set_rx_id, set_pool, free_msg}
use zephyr_project.Framework.SysCore.{msg_queue, handler_at}

-- `memcpy` of `size` bytes into a fresh buffer of that size, which is zero. The header takes the
-- first four bytes.
unfoldable pub copy_msg : ℕ → Msg → Msg → Msg
copy_msg size new m = record {
  header = record {
    msg_code = if ltb 0 size then m.header.msg_code else new.header.msg_code;
    rx_id = if ltb 1 size then m.header.rx_id else new.header.rx_id;
    tx_id = if ltb 2 size then m.header.tx_id else new.header.tx_id;
    options = if ltb 3 size then m.header.options else new.header.options;
  };
  payload = take ((size - 4) / 4) m.payload;
}

unfoldable pub accepts : {H : Type 0} → MsgRecv H → Msg → Bool
accepts rxer m = elim rxer.accept_broadcast [ none ↦ true | some f ↦ f m ]

module _ {e : Env} where
  -- The new buffer `p_new` is filled and queued, and freed again when the queue refuses it.
  unfoldable pub broadcast_copy : ℕ → ℕ → MsgRecv e.Handler → ℕ → World e → ℤ × World e
  broadcast_copy p_msg msg_size rxer p_new w =
      let copied = set_msg p_new (copy_msg msg_size (get_msg w p_new) (get_msg w p_msg)) w in
      let sent = msg_queue rxer.p_queue (some p_new) no_wait (set_rx_id p_new rxer.id copied) in
      if is_zero sent.0 then sent else (sent.0, free_msg p_new sent.1)

  -- One round of the loop in `msg_broadcast`: the value of `ret` and the state.
  unfoldable pub broadcast_one : ℕ → ℕ → ℕ → ℤ → World e → ℤ × World e
  unfolding accepts
  broadcast_one p_msg msg_size i ret w =
      let rxer = w.recv (w.msg_task_registry i).p_msg_recv in
      let taken = buffer_pool_try_to_take e.platform msg_size w.pool in
      elim (handler_at w i (get_msg w p_msg).header.msg_code) [
        | none ↦ (ret, w)
        | some h ↦
            if not (accepts rxer (get_msg w p_msg))
            then (ret, w)
            else if taken.0 == 0
            then (ret, set_pool taken.1 w)
            else broadcast_copy p_msg msg_size rxer taken.0 (set_pool taken.1 w)
      ]

  unfoldable pub broadcast_from : (left i : ℕ) → ℕ → ℕ → ℤ → World e → ℤ × World e
  broadcast_from zero i p_msg msg_size ret w = (ret, w)
  broadcast_from (suc left) i p_msg msg_size ret w =
      let r = broadcast_one p_msg msg_size i ret w in
      broadcast_from left (suc i) p_msg msg_size r.0 r.1

  unfoldable pub msg_broadcast : ℕ → ℕ → World e → ℤ × World e
  msg_broadcast p_msg msg_size w =
      let r =
        broadcast_from (max_msg_recvs - msg_id_app_start) msg_id_app_start p_msg msg_size sys_error
          w in
      if p_msg == 0
      then (sys_error, w)
      else if is_zero r.0
      then (r.0, set_pool (buffer_pool_free e.platform p_msg (r.1).pool) r.1)
      else r
