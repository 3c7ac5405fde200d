-- ===== src/Framework/Threads/Running.antt =====
-- The steps of the senders and of the receiver, run alone, beside the functions themselves.
use zephyr_project.Framework.BufferPool.{buffer_pool_take, buffer_pool_try_to_take}
use zephyr_project.Framework.SysCore.{msg_queue, msg_send}
use zephyr_project.Framework.SysMsg.{
  deallocate_on_error, sys_msg_header_init, sysmsg_create_and_send, sysmsg_reply,
}
use zephyr_project.Framework.Threads.{
  Prog, and_then, done, free_buffer, get_at, get_from, put_at, put_msg, read_msg, run_alone,
  take_buffer, taken_by, write_msg, on_app, call_timer,
}
use zephyr_project.Framework.Threads.Calls.{
  create_and_send_calls, free_on_error_calls, queue_calls, reply_calls, send_calls,
  periodic_timer_calls,
}
use zephyr_project.Framework.Types.{max_msg_recvs, sizeof_msg, smc_invalid, smc_periodic}
use zephyr_project.Framework.World.{
  Env, World, free_msg, get_msg, set_msg, set_pool, set_rx_id, set_header, log_timer,
}
use zephyr_project.Platform.{no_wait}
use zephyr_project.Prelude.{
  Bool, false, if◌then◌else◌, leb, not, refl, some, true, ℕ, ◌==◌, ◌∙◌, ◌≡◌, ==_refl, ap,
}
use zephyr_project.Prelude.Int.{is_zero, ℤ}
use Prim.{tt}
use zephyr_project.Framework.Timer.{periodic_timer_callback_isr}

pub branch :
    {e : Env} {A : Type 0} (b : Bool) (x y : Prog e A) {r r' : A × World e} (w : World e)
    → run_alone x w ≡ r
    → run_alone y w ≡ r'
    → run_alone (if b then x else y) w ≡ (if b then r else r')
branch true x y w g h = g
branch false x y w g h = h

-- A program and then another one.
pub run-and_then :
    {e : Env} {A B : Type 0} (c : Prog e A) (f : A → Prog e B) (w : World e)
    → run_alone (and_then c f) w ≡ run_alone (f (run_alone c w).0) (run_alone c w).1
run-and_then (done a) f w = refl
run-and_then (take_buffer t n k) f w =
    let r = taken_by t n w in run-and_then (k r.0) f (set_pool r.1 w)
run-and_then (read_msg p k) f w = run-and_then (k (get_msg w p)) f w
run-and_then (write_msg p m k) f w = run-and_then k f (set_msg p m w)
run-and_then (put_msg q p t k) f w = let r = put_at q p t w in run-and_then (k r.0) f r.1
run-and_then (get_from q t k) f w = let r = get_at q t w in run-and_then (k r.0 r.1) f r.2
run-and_then (free_buffer p k) f w = run-and_then k f (free_msg p w)
run-and_then (call_timer c k) f w = run-and_then k f (log_timer c w)
run-and_then (on_app g k) f w = run-and_then (k w.app) f (record w { app = g w.app })

module _ {e : Env} where
  run-queue_calls :
      (q p : ℕ) (w : World e) → run_alone (queue_calls w q p) w ≡ msg_queue q (some p) no_wait w
  unfolding msg_queue
  run-queue_calls q p w = branch (q == 0) _ _ w refl (
      branch (p == 0) _ _ w refl
        (branch ((get_msg w p).header.msg_code == smc_invalid) _ _ w refl refl))

  pub run-send_calls : (rx p : ℕ) (w : World e) → run_alone (send_calls w rx p) w ≡ msg_send rx p w
  unfolding msg_send
  run-send_calls rx p w =
      let entry = w.msg_task_registry rx in
      branch (p == 0) _ _ w refl (
        branch (leb max_msg_recvs rx) _ _ w refl (
          branch (not entry.in_use) _ _ w refl (
            branch (entry.p_msg_recv == 0) _ _ w refl
              (run-queue_calls (w.recv entry.p_msg_recv).p_queue p (set_rx_id p rx w)))))

  -- With a sender that does what its steps do, what is sent or freed.
  pub run-free_on_error :
      (p : ℕ) (c : Prog e ℤ) (r : ℤ × World e) (w : World e)
      → run_alone c w ≡ r
      → run_alone (and_then c (free_on_error_calls w p)) w ≡ deallocate_on_error p r
  unfolding deallocate_on_error
  run-free_on_error p c r w same =
      run-and_then c (free_on_error_calls w p) w ∙ rw same (branch (is_zero r.0) _ _ r.1 refl refl)

  -- Run alone, the steps of `sysmsg_create_and_send` do what the function does.
  pub run-create_and_send_calls :
      (tx rx code : ℕ) (w : World e)
      → run_alone (create_and_send_calls w tx rx code) w ≡ sysmsg_create_and_send tx rx code w
  unfolding sysmsg_create_and_send sys_msg_header_init
  run-create_and_send_calls tx rx code' w =
      let taken = buffer_pool_take e.platform sizeof_msg w.pool in
      let w' = set_pool taken.1 w in
      let w₁ = sys_msg_header_init taken.0 code' tx w' in
      branch (taken.0 == 0) _ _ w' refl
        (run-free_on_error taken.0 (send_calls w rx taken.0) _ w₁ (run-send_calls rx taken.0 w₁))

  -- Run alone, the steps of `sysmsg_reply` do what the function does.
  pub run-reply_calls :
      (p code : ℕ) (w : World e) → run_alone (reply_calls w p code) w ≡ sysmsg_reply p code w
  unfolding sysmsg_reply
  run-reply_calls p code' w =
      let h = (get_msg w p).header in
      let w₁ = set_header p (record h { rx_id = h.tx_id; tx_id = h.rx_id; msg_code = code' }) w in
      run-free_on_error p (send_calls w h.tx_id p) _ w₁
        (rw (==_refl p) (run-send_calls h.tx_id p w₁))

  pub first-branch :
      {A : Type 0} (b : Bool) (x y : Prog e A) {r r' : World e} (w : World e)
      → (run_alone x w).1 ≡ r
      → (run_alone y w).1 ≡ r'
      → (run_alone (if b then x else y) w).1 ≡ (if b then r else r')
  first-branch true x y w g h = g
  first-branch false x y w g h = h

  -- Run alone, the steps of `periodic_timer_callback_isr` do what the function does.
  pub run-periodic_timer_calls :
      (p_msg_task : ℕ) (w : World e)
      → (run_alone (periodic_timer_calls w p_msg_task) w).1
        ≡ periodic_timer_callback_isr p_msg_task w
  unfolding periodic_timer_callback_isr
  run-periodic_timer_calls p_msg_task w =
      let id = (w.recv (w.task p_msg_task).rxer).id in
      let taken = buffer_pool_try_to_take e.platform sizeof_msg w.pool in
      let p = taken.0 in
      let w₁ = set_pool taken.1 w in
      let options = (get_msg w₁ p).header.options in
      let w₂ =
        set_header p (record { msg_code = smc_periodic; rx_id = id; tx_id = id; options = options })
          w₁ in
      let last = λ (z : ℤ). if is_zero z then done tt else free_buffer p (done tt) in
      first-branch (p == 0) _ _ w₁ refl (
        ap (λ (r : Unit × World e). r.1) (run-and_then (send_calls w id p) last w₂)
        ∙ rw (run-send_calls id p w₂) (first-branch (is_zero (msg_send id p w₂).0) _ _ _ refl refl))

-- No step of a program changes the tasks' objects.
pub run_alone-task :
    {e : Env} {A : Type 0} (c : Prog e A) (w : World e) → (run_alone c w).1.task ≡ w.task
run_alone-task (done a) w = refl
run_alone-task (take_buffer t n k) w =
    let r = taken_by t n w in run_alone-task (k r.0) (set_pool r.1 w)
run_alone-task (read_msg p k) w = run_alone-task (k (get_msg w p)) w
run_alone-task (write_msg p m k) w = run_alone-task k (set_msg p m w)
run_alone-task (put_msg q p t k) w = let r = put_at q p t w in run_alone-task (k r.0) r.1
run_alone-task (get_from q t k) w = let r = get_at q t w in run_alone-task (k r.0 r.1) r.2
run_alone-task (free_buffer p k) w = run_alone-task k (free_msg p w)
run_alone-task (call_timer c k) w = run_alone-task k (log_timer c w)
run_alone-task (on_app g k) w = run_alone-task (k w.app) (record w { app = g w.app })
