-- ===== src/App/Tasks/Startup.antt =====
-- Which tasks are reached by their ids after the initialisation.
use zephyr_project.App.Event.{event_task_msg_dispatcher}
use zephyr_project.App.Sensor.{sensor_task_msg_dispatcher}
use zephyr_project.App.State.{Handler, app_env}
use zephyr_project.App.Tasks.{
  TaskAddress, control_task_init, control_task_msg_dispatcher, event_task_init, fill_task,
  sensor_task_init,
}
use zephyr_project.Config.SysCfg.{Nvs}
use zephyr_project.Framework.SysCore.{msg_register_receiver, msg_register_task}
use zephyr_project.Framework.SysCore.Sending.{queue_at}
use zephyr_project.Framework.Types.{
  msg_id_control_task, msg_id_event_task, msg_id_sensor_task, max_msg_recvs,
}
use zephyr_project.Framework.World.{World, MsgTaskEntry}
use zephyr_project.Platform.{Platform}
use zephyr_project.Prelude.{
  ==_ne, ==_refl, Option, false, some, true, ℕ, ◌≡◌, ◌≢◌, if◌then◌else◌, ◌<◌, ◌==◌, arith, leb,
  refl, ◌∙◌, ap,
}

module _ {p : Platform} {n : Nvs} where
  -- The task's slot leads to its receiver, which has its queue and its dispatcher.
  pub record Reached (w : World (app_env p n)) (id : ℕ) (a : TaskAddress)
      (dispatcher : ℕ → Option Handler) : Type 0 where
    pub entry : w.msg_task_registry id ≡ record { p_msg_recv = a.rxer; in_use = true }
    pub queue : queue_at w id ≡ a.p_queue
    pub dispatches : (w.recv a.rxer).p_msg_dispatcher ≡ some dispatcher

  -- What registering a filled-in task changes: its slot and its receiver.
  record Registered (w w' : World (app_env p n)) (id : ℕ) (a : TaskAddress)
      (dispatcher : ℕ → Option Handler) : Type 0 where
    reached : Reached w' id a dispatcher
    slots :
        (i : ℕ)
        → w'.msg_task_registry i
          ≡ (if i == id then w'.msg_task_registry id else w.msg_task_registry i)
    recvs : (r : ℕ) → w'.recv r ≡ (if r == a.rxer then w'.recv a.rxer else w.recv r)

  init-Registered :
      (a : TaskAddress) (id duration : ℕ) (dispatcher : ℕ → Option Handler)
      (w : World (app_env p n))
      → (w.msg_task_registry id).in_use ≡ false
      → id < max_msg_recvs
      → a.msg_task ≢ 0
      → a.rxer ≢ 0
      → Registered w
          (msg_register_task a.msg_task (fill_task a id dispatcher duration w))
          id
          a
          dispatcher
  unfolding fill_task msg_register_task msg_register_receiver
  init-Registered a id duration dispatcher w free lt t r =
      let over : leb max_msg_recvs id ≡ false = ground arith in
      rw (==_ne a.msg_task 0 t, ==_refl a.msg_task, ==_ne a.rxer 0 r, ==_refl a.rxer, over, free)
        (record {
          reached = record {
            entry = ground arith;
            queue = ground arith;
            dispatches = ground arith;
          };
          slots = λ i. ground arith;
          recvs = λ i. ground arith;
        })

  keeps-Reached :
      (w w' : World (app_env p n)) (id i : ℕ) (a b : TaskAddress) (d d' : ℕ → Option Handler)
      → Registered w w' id a d
      → Reached w i b d'
      → i ≢ id
      → b.rxer ≢ a.rxer
      → Reached w' i b d'
  keeps-Reached w w' id i a b d d' x y ne ne' =
      let slot : w'.msg_task_registry i ≡ w.msg_task_registry i =
        x.slots i ∙ rw (==_ne i id ne) refl in
      let recv : w'.recv b.rxer ≡ w.recv b.rxer =
        x.recvs b.rxer ∙ rw (==_ne b.rxer a.rxer ne') refl in
      let entry : w'.msg_task_registry i ≡ record { p_msg_recv = b.rxer; in_use = true } =
        slot ∙ y.entry in
      let old : queue_at w i ≡ b.p_queue = y.queue in
      let at_rxer : (w.recv b.rxer).p_queue ≡ b.p_queue = rw (queue_at, y.entry) at old in
      record {
        entry = entry;
        queue = rw (queue_at, entry, recv) at_rxer;
        dispatches = rw recv y.dispatches;
      }

  -- From a state in which the three slots are free, with receivers and tasks that are not NULL and
  -- whose receivers are distinct, the three initialisations make each task reached by its id.
  pub task_init-Reached :
      (control sensor event : TaskAddress) (heartbeat second : ℕ) (w : World (app_env p n))
      → (w.msg_task_registry msg_id_control_task).in_use ≡ false
      → (w.msg_task_registry msg_id_sensor_task).in_use ≡ false
      → (w.msg_task_registry msg_id_event_task).in_use ≡ false
      → control.msg_task ≢ 0
      → sensor.msg_task ≢ 0
      → event.msg_task ≢ 0
      → control.rxer ≢ 0
      → sensor.rxer ≢ 0
      → event.rxer ≢ 0
      → control.rxer ≢ sensor.rxer
      → control.rxer ≢ event.rxer
      → sensor.rxer ≢ event.rxer
      → let w' =
          event_task_init event second
            (sensor_task_init sensor second (control_task_init control heartbeat w)) in
        Reached w' msg_id_control_task control control_task_msg_dispatcher
        × Reached w' msg_id_sensor_task sensor sensor_task_msg_dispatcher
        × Reached w' msg_id_event_task event event_task_msg_dispatcher
  unfolding control_task_init sensor_task_init event_task_init
  task_init-Reached c s e heartbeat second w f₁ f₂ f₃ tc ts te rc rs re cs ce se =
      let w₁ = control_task_init c heartbeat w in
      let w₂ = sensor_task_init s second w₁ in
      let w₃ = event_task_init e second w₂ in
      let x₁ =
        init-Registered c msg_id_control_task heartbeat control_task_msg_dispatcher w f₁
          (omega arith) tc rc in
      let first : Reached w₁ msg_id_control_task c control_task_msg_dispatcher = record {
        entry = x₁.reached.entry;
        queue = x₁.reached.queue;
        dispatches = x₁.reached.dispatches;
      } in
      let free₂ : (w₁.msg_task_registry msg_id_sensor_task).in_use ≡ false =
        ap (λ (x : MsgTaskEntry). x.in_use) (x₁.slots msg_id_sensor_task) ∙ f₂ in
      let x₂ =
        init-Registered s msg_id_sensor_task second sensor_task_msg_dispatcher w₁ free₂
          (omega arith) ts rs in
      let free₃ : (w₂.msg_task_registry msg_id_event_task).in_use ≡ false =
        ap (λ (x : MsgTaskEntry). x.in_use)
          (x₂.slots msg_id_event_task ∙ x₁.slots msg_id_event_task)
        ∙ f₃ in
      let x₃ =
        init-Registered e msg_id_event_task second event_task_msg_dispatcher w₂ free₃ (omega arith)
          te re in
      let first₂ = keeps-Reached w₁ w₂ _ _ s c _ _ x₂ first (omega arith) cs in
      (
        keeps-Reached w₂ w₃ _ _ e c _ _ x₃ first₂ (omega arith) ce,
        keeps-Reached w₂ w₃ _ _ e s _ _ x₃ x₂.reached (omega arith) se,
        x₃.reached,
      )
