-- ===== src/Framework/SysMsg.antt =====
-- lib/framework/sys_msg.c: the senders, which free the message when it cannot be sent.
-- CONFIG_FILTER is no option of the build, so its branch is not compiled.
pub mod Delivery
pub mod Unicast
pub mod Aside
pub mod Release
pub mod Progress
use zephyr_project.Prelude.{ℕ, Option, none, some, [], ◌∷◌, ◌==◌, if◌then◌else◌}
use zephyr_project.Prelude.Int.{ℤ, is_zero}
use zephyr_project.Framework.Types.{
  Msg, sys_error, msg_id_reserved, msg_option_none, msg_option_callback, sizeof_msg, sizeof_cb_msg,
}
use zephyr_project.Framework.BufferPool.{buffer_pool_take, buffer_pool_free}
use zephyr_project.Framework.World.{
  Env, World, get_msg, set_msg, set_header, set_rx_id, set_pool, free_msg,
}
use zephyr_project.Framework.SysCore.{msg_send, msg_unicast}
use zephyr_project.Framework.Broadcast.{msg_broadcast}
use Prim.Native.Char.{code}

module _ {e : Env} where
  -- Takes the status and the state that a sender returned.
  unfoldable pub deallocate_on_error : ℕ → ℤ × World e → ℤ × World e
  deallocate_on_error p_msg r = if is_zero r.0 then r else (r.0, free_msg p_msg r.1)

  unfoldable pub sysmsg_send : ℕ → World e → ℤ × World e
  sysmsg_send p_msg w = deallocate_on_error p_msg (msg_send (get_msg w p_msg).header.rx_id p_msg w)

  -- It differs from `sysmsg_send` by an assertion, which expands to nothing.
  unfoldable pub sysmsg_try_to_send : ℕ → World e → ℤ × World e
  sysmsg_try_to_send p_msg w =
      deallocate_on_error p_msg (msg_send (get_msg w p_msg).header.rx_id p_msg w)

  unfoldable pub sysmsg_sendto : ℕ → ℕ → World e → ℤ × World e
  sysmsg_sendto p_msg dest_id w =
      let w' = set_rx_id p_msg dest_id w in
      deallocate_on_error p_msg (msg_send (get_msg w' p_msg).header.rx_id p_msg w')

  unfoldable pub sysmsg_unicast : ℕ → World e → ℤ × World e
  sysmsg_unicast p_msg w = deallocate_on_error p_msg (msg_unicast p_msg w)

  -- SYS_MSG_HEADER_INIT
  unfoldable pub sys_msg_header_init : ℕ → ℕ → ℕ → World e → World e
  sys_msg_header_init p_msg code id w =
      set_header p_msg
        (record { msg_code = code; rx_id = msg_id_reserved; tx_id = id; options = msg_option_none })
        w

  unfoldable pub sysmsg_create_and_send : ℕ → ℕ → ℕ → World e → ℤ × World e
  sysmsg_create_and_send tx_id rx_id code w =
      let taken = buffer_pool_take e.platform sizeof_msg w.pool in
      let w' = set_pool taken.1 w in
      if taken.0 == 0
      then (sys_error, w')
      else deallocate_on_error taken.0
          (msg_send rx_id taken.0 (sys_msg_header_init taken.0 code tx_id w'))

  unfoldable pub sysmsg_create_and_sendto_self : ℕ → ℕ → World e → ℤ × World e
  sysmsg_create_and_sendto_self id code w =
      let taken = buffer_pool_take e.platform sizeof_msg w.pool in
      let w' = set_pool taken.1 w in
      if taken.0 == 0
      then (sys_error, w')
      else deallocate_on_error taken.0
          (msg_send id taken.0 (set_rx_id taken.0 id (sys_msg_header_init taken.0 code id w')))

  unfoldable pub sysmsg_unicast_create_and_send : ℕ → ℕ → World e → ℤ × World e
  sysmsg_unicast_create_and_send tx_id code w =
      let taken = buffer_pool_take e.platform sizeof_msg w.pool in
      let w' = set_pool taken.1 w in
      if taken.0 == 0
      then (sys_error, w')
      else deallocate_on_error taken.0
          (msg_unicast taken.0 (sys_msg_header_init taken.0 code tx_id w'))

  unfoldable pub sysmsg_create_and_broadcast : ℕ → ℕ → World e → ℤ × World e
  sysmsg_create_and_broadcast tx_id code w =
      let taken = buffer_pool_take e.platform sizeof_msg w.pool in
      let w' = set_pool taken.1 w in
      if taken.0 == 0
      then (sys_error, w')
      else deallocate_on_error taken.0 (
          msg_broadcast taken.0 sizeof_msg
            (set_rx_id taken.0 msg_id_reserved (sys_msg_header_init taken.0 code tx_id w')))

  unfoldable pub sysmsg_reply : ℕ → ℕ → World e → ℤ × World e
  sysmsg_reply p_msg code w =
      let h = (get_msg w p_msg).header in
      let w' =
        set_header p_msg (record h { rx_id = h.tx_id; tx_id = h.rx_id; msg_code = code }) w in
      deallocate_on_error p_msg (msg_send (get_msg w' p_msg).header.rx_id p_msg w')

  unfoldable pub sysmsg_cb_create_and_send : ℕ → ℕ → ℕ → ℕ → ℕ → World e → ℤ × World e
  sysmsg_cb_create_and_send tx_id rx_id code cb cb_data w =
      let taken = buffer_pool_take e.platform sizeof_cb_msg w.pool in
      let w' = set_pool taken.1 w in
      let m : Msg = record {
        header = record {
          msg_code = code;
          rx_id = rx_id;
          tx_id = tx_id;
          options = msg_option_callback;
        };
        payload = cb ∷ cb_data ∷ [];
      } in
      let w'' = set_msg taken.0 m w' in
      if taken.0 == 0
      then (sys_error, w')
      else deallocate_on_error taken.0
          (if rx_id == msg_id_reserved then msg_unicast taken.0 w'' else msg_send rx_id taken.0 w'')

  -- `target_id` is NULL or points at the id.
  unfoldable pub sysmsg_filtered_targeted_send : ℕ → Option ℕ → ℕ → World e → ℤ × World e
  sysmsg_filtered_targeted_send p_msg none msg_size w =
      deallocate_on_error p_msg (msg_broadcast p_msg msg_size (set_rx_id p_msg msg_id_reserved w))
  sysmsg_filtered_targeted_send p_msg (some target) msg_size w =
      deallocate_on_error p_msg (msg_send target p_msg (set_rx_id p_msg target w))
