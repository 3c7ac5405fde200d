-- ===== src/Tests/Framework.antt =====
-- The framework's theorems at concrete states.
use zephyr_project.App.State.{Handler, join_lorawan}
use zephyr_project.App.Tasks.{control_task_msg_dispatcher}
use zephyr_project.Framework.Broadcast.{msg_broadcast}
use zephyr_project.Framework.Broadcast.Conservation.{Grows, msg_broadcast_conserves}
use zephyr_project.Framework.BufferPool.{
  buffer_pool_take, take_stat_handler, bph_size, buffer_pool_try_to_take,
  buffer_pool_try_to_take_timeout,
}
use zephyr_project.Framework.BufferPool.Heap.{Takes, buffer_pool_take-Takes}
use zephyr_project.Framework.BufferPool.Stats.{take_stat_handler-WindowIsValid}
use zephyr_project.Framework.Effect.{live, queued, Delivered, Released}
use zephyr_project.Framework.Receiver.{msg_flush, msg_receiver}
use zephyr_project.Framework.Receiver.Dispatch.{
  Consumes, msg_receiver-Consumes, msg_receiver_unknown, popped,
}
use zephyr_project.Framework.Receiver.Flush.{Flushed, msg_flush-Flushed}
use zephyr_project.Framework.SysCore.{msg_register_receiver, msg_send, msg_unicast}
use zephyr_project.Framework.SysCore.NewBuffer.{Creates}
use zephyr_project.Framework.SysCore.Registry.{
  RegistryIsValid, msg_register_receiver-RegistryIsValid,
}
use zephyr_project.Framework.SysCore.Sending.{Routes, SendsAs, msg_send-SendsAs, msg_unicast-Routes}
use zephyr_project.Framework.SysMsg.{
  sysmsg_cb_create_and_send, sysmsg_create_and_send, sysmsg_reply, sysmsg_unicast_create_and_send,
}
use zephyr_project.Framework.SysMsg.Delivery.{
  cb_msg, plain_msg, sysmsg_cb_create_and_send-Creates, sysmsg_create_and_send-Creates,
}
use zephyr_project.Framework.Types.{DispatchResult, Msg, dispatch_ok}
use zephyr_project.Framework.World.{World}
use zephyr_project.Platform.{forever}
use zephyr_project.Platform.Model.{kconfig, model}
use zephyr_project.Prelude.{
  [], arith, false, get_or, if◌then◌else◌, length, none, refl, some, true, ℕ, ◌<◌, ◌==◌, ◌∷◌, ◌≡◌,
  ◌⊎◌, ◌≢◌, inr,
}
use zephyr_project.Prelude.Int.{is_zero}
use zephyr_project.Tests.Base.{base, env, stats, with_msg}
use zephyr_project.Framework.SysMsg.Progress.{Accepts, sysmsg_create_and_send_succeeds}
use zephyr_project.Framework.SysMsg.Unicast.{Finds, sysmsg_unicast_create_and_send-Finds}
use zephyr_project.Framework.SysMsg.Release.{Hands, sysmsg_reply-Hands}
use zephyr_project.Framework.Deliveries.{Deliveries}

sysmsg_create_and_send-Creates_example :
    Creates base 12 (plain_msg 12 2 1) (sysmsg_create_and_send 1 2 12 base)
sysmsg_create_and_send-Creates_example = sysmsg_create_and_send-Creates 1 2 12 base

base-Accepts : Accepts base 2
base-Accepts = record {
  below = omega arith;
  used = refl;
  some_recv = omega arith;
  some_queue = omega arith;
  room = omega arith;
}

base_takes : (buffer_pool_take model 4 base.pool).0 ≢ 0
unfolding buffer_pool_take buffer_pool_try_to_take buffer_pool_try_to_take_timeout bph_size
base_takes = omega arith

sysmsg_create_and_send_succeeds_example :
    let r = sysmsg_create_and_send 1 2 12 base in
    (is_zero r.0 ≡ true) × ((b : ℕ) × Delivered base r.1 b 12 (plain_msg 12 2 1))
sysmsg_create_and_send_succeeds_example =
    sysmsg_create_and_send_succeeds 1 2 12 base base-Accepts (omega arith) base_takes

sysmsg_cb_create_and_send-Creates_example :
    Creates base 13 (cb_msg 1 3 14 4096 6) (sysmsg_cb_create_and_send 1 3 14 4096 6 base)
sysmsg_cb_create_and_send-Creates_example =
    sysmsg_cb_create_and_send-Creates 1 3 14 4096 6 base (omega arith)

-- A message SMC_JOIN_LORAWAN to the control task.
abbrev join_msg : Msg
join_msg = plain_msg 9 1 1

sysmsg_reply-Hands_example :
    Hands
      (with_msg join_msg)
      11
      1
      (record { msg_code = 5; rx_id = 1; tx_id = 1; options = 0 })
      (sysmsg_reply 9 5 (with_msg join_msg))
unfolding bph_size
sysmsg_reply-Hands_example = sysmsg_reply-Hands 1 5 (with_msg join_msg)

sysmsg_unicast_create_and_send-Finds_example :
    Finds base 14 1 (sysmsg_unicast_create_and_send 1 14 base)
sysmsg_unicast_create_and_send-Finds_example = sysmsg_unicast_create_and_send-Finds 1 14 base

msg_send-SendsAs_example : SendsAs (with_msg join_msg) 2 12 9 (msg_send 2 9 (with_msg join_msg))
msg_send-SendsAs_example = msg_send-SendsAs 2 9 (with_msg join_msg)

msg_unicast-Routes_example : Routes (with_msg join_msg) 1 9 (msg_unicast 9 (with_msg join_msg))
msg_unicast-Routes_example = msg_unicast-Routes 9 (with_msg join_msg)

msg_broadcast_conserves_example :
    let w = with_msg join_msg in
    let r = msg_broadcast 9 4 w in
    ((is_zero r.0 ≡ true) × ((w₁ : World env) × Deliveries w w₁ × Grows w w₁ × Released w₁ r.1 1))
    ⊎ ((is_zero r.0 ≡ false) × Deliveries w r.1 × Grows w r.1)
unfolding bph_size
msg_broadcast_conserves_example = msg_broadcast_conserves 1 4 (with_msg join_msg)

msg_flush-Flushed_example :
    let w = with_msg join_msg in
    (w' : World env) × (msg_flush 5 1 w ≡ some (1, w')) × Flushed w w' 11 (1 ∷ [])
unfolding bph_size
msg_flush-Flushed_example =
    msg_flush-Flushed 5 1 (with_msg join_msg) (1 ∷ []) (omega arith) refl refl (omega arith)

abbrev handlers : Handler → ℕ → ℕ → World env → DispatchResult × World env
handlers h p_rxer p_msg w = (dispatch_ok, w)

abbrev callbacks : ℕ → ℕ → World env → World env
callbacks callback arg w = w

-- A message with a callback at 4096 and the data word 6, and callbacks that keep their data word.
abbrev timed_msg : Msg
timed_msg = cb_msg 1 1 9 4096 6

abbrev noting : ℕ → ℕ → World env → World env
noting callback arg w = record w { app = record (w.app) { dev_nonce = arg } }

joins : control_task_msg_dispatcher 9 ≡ some join_lorawan
unfolding control_task_msg_dispatcher
joins = refl

msg_receiver-Consumes_example :
    let w = with_msg timed_msg in
    let w₁ = popped handlers noting w 11 forever in
    (queued w₁ 11 ≡ [])
    × Consumes handlers noting 1 dispatch_ok (noting 4096 6 w₁) (msg_receiver handlers noting 100 w)
unfolding bph_size
msg_receiver-Consumes_example =
    let w = with_msg timed_msg in
    let w₁ = popped handlers noting w 11 forever in
    msg_receiver-Consumes handlers noting 100 9 w [] control_task_msg_dispatcher (omega arith)
      (omega arith) (omega arith) refl refl 1 refl join_lorawan (noting 4096 6 w₁) joins
      (inr (refl, (4096, 6, [], refl, inr (omega arith, refl))))

unhandled : control_task_msg_dispatcher 11 ≡ none
unfolding control_task_msg_dispatcher
unhandled = refl

-- The control task has no handler for SMC_READ_POWER.
msg_receiver_unknown_example :
    let w = with_msg (plain_msg 11 1 1) in
    let w' = msg_receiver handlers callbacks 100 w in
    (queued w' 11 ≡ []) × ((a : ℕ) → live w' a ≡ (if a == 1 then false else live w a))
unfolding bph_size
msg_receiver_unknown_example =
    msg_receiver_unknown handlers callbacks 100 9 (with_msg (plain_msg 11 1 1)) []
      control_task_msg_dispatcher (omega arith) (omega arith) (omega arith) refl refl 1 refl
      unhandled

-- `base` with nothing registered.
abbrev empty : World env
empty = record base { msg_task_registry = λ _. record { p_msg_recv = 0; in_use = false } }

empty-RegistryIsValid : RegistryIsValid empty
empty-RegistryIsValid i used = cc

msg_register_receiver-RegistryIsValid_example : RegistryIsValid (msg_register_receiver 100 empty)
msg_register_receiver-RegistryIsValid_example =
    msg_register_receiver-RegistryIsValid 100 empty empty-RegistryIsValid

buffer_pool_take-Takes_example : Takes 4 base.pool (buffer_pool_take model 4 base.pool)
buffer_pool_take-Takes_example = buffer_pool_take-Takes 4 base.pool

take_stat_handler-WindowIsValid_example :
    let s' = take_stat_handler kconfig 20 stats in
    (length s'.window ≡ 3) × (s'.windex < 3) × (get_or s'.window 0 0 ≡ 20)
take_stat_handler-WindowIsValid_example =
    take_stat_handler-WindowIsValid kconfig 20 stats (omega arith) refl (omega arith)
