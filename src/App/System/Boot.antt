-- ===== src/App/System/Boot.antt =====
-- The start of the program: `main` of app/src/main.c, and then the control task's thread, which
-- `control_task_init` creates, up to its loop. CONTROL_TASK_USES_MAIN_THREAD is 0, so
-- `control_task_thread` is empty.
-- The board's pins, the settings' file system, and the state of the message tasks.
use zephyr_project.App.Board.{Gpio, bsp_init, Direction, Pin, bsp_init-direction, direction_of}
use zephyr_project.App.State.{app_env, Handler, set_app}
use zephyr_project.App.Tasks.{
  TaskAddress, control_task_init, control_task_msg_dispatcher, ctrl_task_start, event_task_init,
  fill_task, lorawan_init, sensor_task_init,
}
use zephyr_project.Config.SysCfg.{Flash, Nvs, NvsFs, syscfg_init}
use zephyr_project.Framework.SysCore.{msg_register_receiver, msg_register_task}
use zephyr_project.Framework.World.{World, MsgTaskEntry}
use zephyr_project.Platform.{Platform}
use zephyr_project.Prelude.{
  ℕ, ◌≡◌, Bool, Option, ap, if_elim, leb, not, refl, ◌==◌, ◌∙◌, false, some, true, ◌≢◌,
}
use zephyr_project.Prelude.Int.{pos, ℤ, is_neg, is_zero}
use zephyr_project.App.Event.{event_task_msg_dispatcher}
use zephyr_project.App.Sensor.{sensor_task_msg_dispatcher}
use zephyr_project.App.System.Sends.{
  create-Deliveries, msg_start_timer-Deliveries, set_app-Deliveries,
}
use zephyr_project.App.Tasks.Startup.{Reached, task_init-Reached}
use zephyr_project.Config.DevNonce.{get_dev_nonce}
use zephyr_project.Framework.Deliveries.{Deliveries, next, quiet, Deliveries-SameSetup}
use zephyr_project.Framework.Effect.{SameSetup, stay}
use zephyr_project.Framework.Ownership.Receiving.{
  PoolIsOwned, PoolIsOwned-kept, Deliveries-PoolIsOwned,
}
use zephyr_project.Framework.Types.{
  MsgRecv, max_msg_recvs, msg_id_control_task, msg_id_event_task, msg_id_sensor_task,
  smc_join_lorawan,
}

pub record Machine (g : Gpio) (p : Platform) (n : Nvs) : Type 0 where
  pub board : g.State
  pub fs : NvsFs
  pub world : World (app_env p n)

module _ {g : Gpio} {p : Platform} {n : Nvs} where
  -- `heartbeat` is CONFIG_HEARTBEAT_SECONDS in ticks.
  unfoldable pub main : Flash n → TaskAddress → ℕ → Machine g p n → ℤ × Machine g p n
  main flash control heartbeat m = (
    pos 0,
    record {
      board = (bsp_init g m.board).1;
      fs = (syscfg_init n flash m.fs).1;
      world = control_task_init control heartbeat m.world;
    },
  )

module _ {p : Platform} {n : Nvs} where
  -- The pool and the queues stay as they are.
  abbrev SamePool : World (app_env p n) → World (app_env p n) → Type 0
  SamePool w w' = (w'.pool ≡ w.pool) × (w'.queue ≡ w.queue)

  receiver-SamePool : (r : ℕ) (w : World (app_env p n)) → SamePool w (msg_register_receiver r w)
  unfolding msg_register_receiver
  receiver-SamePool r w =
      let same : SamePool w w = (refl, refl) in
      let id = (w.recv r).id in
      if_elim (SamePool w) (r == 0) (λ _. same)
        (λ _.
          if_elim (SamePool w) (leb max_msg_recvs id) (λ _. same)
            (λ _.
              if_elim (SamePool w) (not (w.msg_task_registry id).in_use) (λ _. (refl, refl))
                (λ _. same)))

  register-SamePool : (t : ℕ) (w : World (app_env p n)) → SamePool w (msg_register_task t w)
  unfolding msg_register_task
  register-SamePool t w =
      if_elim (SamePool w) (t == 0) (λ _. (refl, refl)) (λ _. receiver-SamePool (w.task t).rxer w)

  init-PoolIsOwned :
      (a : TaskAddress) (id duration : ℕ) (dispatcher : ℕ → Option Handler)
      (w : World (app_env p n))
      → PoolIsOwned w
      → PoolIsOwned (msg_register_task a.msg_task (fill_task a id dispatcher duration w))
  unfolding fill_task
  init-PoolIsOwned a id duration dispatcher w i =
      let w₁ = fill_task a id dispatcher duration w in
      let (pool, queue) = register-SamePool a.msg_task w₁ in
      PoolIsOwned-kept w (msg_register_task a.msg_task w₁) pool queue i

  task_init-PoolIsOwned :
      (control sensor event : TaskAddress) (heartbeat second : ℕ) (w : World (app_env p n))
      → PoolIsOwned w
      → PoolIsOwned (
          event_task_init event second
            (sensor_task_init sensor second (control_task_init control heartbeat w)))
  unfolding control_task_init sensor_task_init event_task_init
  task_init-PoolIsOwned control sensor event heartbeat second w i =
      let i₁ =
        init-PoolIsOwned control msg_id_control_task heartbeat control_task_msg_dispatcher w i in
      let i₂ = PoolIsOwned-kept _ (control_task_init control heartbeat w) refl refl i₁ in
      let i₃ = init-PoolIsOwned sensor msg_id_sensor_task second sensor_task_msg_dispatcher _ i₂ in
      init-PoolIsOwned event msg_id_event_task second event_task_msg_dispatcher _ i₃

  -- A task is reached through the receivers and the registry alone.
  pub Reached-SameSetup :
      {w w' : World (app_env p n)} {id : ℕ} {a : TaskAddress} {dispatcher : ℕ → Option Handler}
      → SameSetup w w'
      → Reached w id a dispatcher
      → Reached w' id a dispatcher
  Reached-SameSetup {w} {w'} {id} {a} (recv, registry) r = record {
    entry = ap (λ (f : ℕ → MsgTaskEntry). f id) registry ∙ r.entry;
    queue =
        ap (λ (f : ℕ → MsgRecv Handler). (f (w'.msg_task_registry id).p_msg_recv).p_queue) recv
        ∙ ap (λ (f : ℕ → MsgTaskEntry). (w.recv (f id).p_msg_recv).p_queue) registry
        ∙ r.queue;
    dispatches = ap (λ (f : ℕ → MsgRecv Handler). (f a.rxer).p_msg_dispatcher) recv ∙ r.dispatches;
  }

  ctrl_task_start-Deliveries :
      (control sensor event : TaskAddress) (second : ℕ) (start : ℤ) (w : World (app_env p n))
      → Deliveries
          (event_task_init event second (sensor_task_init sensor second w))
          (ctrl_task_start control sensor event second start w)
  unfolding ctrl_task_start lorawan_init
  ctrl_task_start-Deliveries control sensor event second start w =
      let w₁ = event_task_init event second (sensor_task_init sensor second w) in
      let w₂ = set_app (record (w₁.app) { dev_nonce = get_dev_nonce n w₁.app.store }) w₁ in
      let joins = create-Deliveries msg_id_control_task msg_id_control_task smc_join_lorawan w₂ in
      let starts : Deliveries w₁ (lorawan_init start w₁).1 =
        if_elim (λ (r : Bool × World (app_env p n)). Deliveries w₁ r.1) (is_neg start)
          (λ _. quiet (stay w₁)) (λ _. next (set_app-Deliveries _ w₁) joins) in
      next (next starts (msg_start_timer-Deliveries control.msg_task _)) (set_app-Deliveries _ _)

  started_flag :
      (control sensor event : TaskAddress) (second : ℕ) (start : ℤ) (w : World (app_env p n))
      → (ctrl_task_start control sensor event second start w).app.b_task_started ≡ true
  unfolding ctrl_task_start
  started_flag control sensor event second start w = refl

module _ {g : Gpio} {p : Platform} {n : Nvs}
    (configures : (s : g.State) (a : Pin) (d : Direction)
      → is_zero (g.gpio_pin_configure_dt s a d).0 ≡ true)
    (flash : Flash n) (control sensor event : TaskAddress) (heartbeat second : ℕ) (start : ℤ) where
  -- When the driver configures every pin, and in a state in which the three slots are free, the task
  -- and receiver objects are not NULL, the receivers are distinct and each allocated block stands in
  -- exactly one queue, `main` and the start of the control task's thread end in a state in which
  -- every pin is configured, each of the three tasks is reached by its id, each allocated block
  -- stands in exactly one queue, and the task is marked as started. The settings' flash and the
  -- radio may fail.
  pub main-Booted :
      (m : Machine g p n)
      → (m.world.msg_task_registry msg_id_control_task).in_use ≡ false
      → (m.world.msg_task_registry msg_id_sensor_task).in_use ≡ false
      → (m.world.msg_task_registry msg_id_event_task).in_use ≡ false
      → control.msg_task ≢ 0
      → sensor.msg_task ≢ 0
      → event.msg_task ≢ 0
      → control.rxer ≢ 0
      → sensor.rxer ≢ 0
      → event.rxer ≢ 0
      → control.rxer ≢ sensor.rxer
      → control.rxer ≢ event.rxer
      → sensor.rxer ≢ event.rxer
      → PoolIsOwned m.world
      → let m' = (main flash control heartbeat m).1 in
        let w' = ctrl_task_start control sensor event second start m'.world in
        ((a : Pin) → g.direction m'.board a ≡ some (direction_of a))
        × Reached w' msg_id_control_task control control_task_msg_dispatcher
        × Reached w' msg_id_sensor_task sensor sensor_task_msg_dispatcher
        × Reached w' msg_id_event_task event event_task_msg_dispatcher
        × PoolIsOwned w'
        × (w'.app.b_task_started ≡ true)
  unfolding main
  main-Booted m f₁ f₂ f₃ tc ts te rc rs re cs ce se pool =
      let w = m.world in
      let ready =
        task_init-Reached control sensor event heartbeat second w f₁ f₂ f₃ tc ts te rc rs re cs ce
          se in
      let started =
        ctrl_task_start-Deliveries control sensor event second start
          (control_task_init control heartbeat w) in
      let setup = Deliveries-SameSetup started in
      (
        bsp_init-direction g configures m.board,
        Reached-SameSetup setup ready.0,
        Reached-SameSetup setup ready.1,
        Reached-SameSetup setup ready.2,
        Deliveries-PoolIsOwned (task_init-PoolIsOwned control sensor event heartbeat second w pool)
            started,
        started_flag control sensor event second start (control_task_init control heartbeat w),
      )
