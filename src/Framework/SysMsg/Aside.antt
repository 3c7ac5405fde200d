-- ===== src/Framework/SysMsg/Aside.antt =====
-- The application's own state when a message is sent.
use zephyr_project.Framework.SysCore.{msg_queue, msg_send}
use zephyr_project.Framework.SysMsg.{
  deallocate_on_error, sys_msg_header_init, sysmsg_create_and_send,
}
use zephyr_project.Framework.World.{Env, World, set_pool}
use zephyr_project.Prelude.{arith, ℕ, ◌≡◌, if_elim, refl, ◌==◌}
use zephyr_project.Framework.BufferPool.{buffer_pool_take}
use zephyr_project.Framework.Types.{sizeof_msg}
use zephyr_project.Prelude.Int.{is_zero, ℤ}

module _ {e : Env} where
  pub msg_send-app : (id p_msg : ℕ) (w : World e) → (msg_send id p_msg w).1.app ≡ w.app
  unfolding msg_send msg_queue
  msg_send-app id p_msg w = ground arith

  pub sysmsg_create_and_send-app :
      (tx rx code : ℕ) (w : World e) → (sysmsg_create_and_send tx rx code w).1.app ≡ w.app
  unfolding sysmsg_create_and_send deallocate_on_error sys_msg_header_init
  sysmsg_create_and_send-app tx rx code' w =
      let taken = buffer_pool_take e.platform sizeof_msg w.pool in
      let w₁ = sys_msg_header_init taken.0 code' tx (set_pool taken.1 w) in
      let same : (msg_send rx taken.0 w₁).1.app ≡ w.app = msg_send-app rx taken.0 w₁ in
      if_elim (λ (r : ℤ × World e). r.1.app ≡ w.app) (taken.0 == 0) (λ _. refl)
        (λ _.
          if_elim (λ (r : ℤ × World e). r.1.app ≡ w.app) (is_zero (msg_send rx taken.0 w₁).0)
            (λ _. same) (λ _. same))
