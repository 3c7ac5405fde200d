-- ===== src/Framework/SysCore/Registry.antt =====
-- The registry of message receivers.
use zephyr_project.Framework.SysCore.{msg_register_receiver}
use zephyr_project.Framework.Types.{max_msg_recvs}
use zephyr_project.Framework.World.{Env, World}
use zephyr_project.Prelude.{arith, false, true, ℕ, ◌<◌, ◌≡◌, ◌≢◌, if_elim, leb, not, ◌==◌}

module _ {e : Env} where
  -- A slot in use names a receiver object whose id is the slot's index.
  abbrev pub RegistryIsValid : World e → Type 0
  RegistryIsValid w =
      (i : ℕ)
      → (w.msg_task_registry i).in_use ≡ true
      → (i < max_msg_recvs)
        × ((w.msg_task_registry i).p_msg_recv ≢ 0)
        × ((w.recv (w.msg_task_registry i).p_msg_recv).id ≡ i)

  -- When every slot in use has an index in range and names a receiver object, not NULL, whose id is
  -- that index, the same holds after a registration.
  pub msg_register_receiver-RegistryIsValid :
      (p : ℕ) (w : World e) → RegistryIsValid w → RegistryIsValid (msg_register_receiver p w)
  unfolding msg_register_receiver
  msg_register_receiver-RegistryIsValid p w v =
      if_elim RegistryIsValid (p == 0) (λ _. v)
        (λ some_p.
          if_elim RegistryIsValid (leb max_msg_recvs (w.recv p).id) (λ _. v)
            (λ below.
              if_elim RegistryIsValid (not (w.msg_task_registry (w.recv p).id).in_use)
                (λ _ i used. ground (arith, v i)) (λ _. v)))

  -- A registration leaves a slot that is in use as it is.
  pub msg_register_receiver_keeps :
      (p i : ℕ) (w : World e)
      → (w.msg_task_registry i).in_use ≡ true
      → (msg_register_receiver p w).msg_task_registry i ≡ w.msg_task_registry i
  unfolding msg_register_receiver
  msg_register_receiver_keeps p i w used = ground arith

  -- A receiver that is not NULL, with an id in range whose slot is free, gets that slot.
  pub msg_register_receiver_adds :
      (p : ℕ) (w : World e)
      → p ≢ 0
      → (w.recv p).id < max_msg_recvs
      → (w.msg_task_registry (w.recv p).id).in_use ≡ false
      → (msg_register_receiver p w).msg_task_registry (w.recv p).id
        ≡ record { in_use = true; p_msg_recv = p }
  unfolding msg_register_receiver
  msg_register_receiver_adds p w ne lt free = ground arith
