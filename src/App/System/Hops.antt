-- ===== src/App/System/Hops.antt =====
-- One message on its way: a task receives it and passes another one on.
use Prim.Native.Nat.{bit_and}
use mathlib.Core.Path.{subst}
use zephyr_project.App.Event.{event_msg_handler, fill_control_event, send_event_msg_lorawan}
use zephyr_project.App.Posting.{sensor_event_water_flow, take_fill_send, take_fill_send-app}
use zephyr_project.App.Sensor.{
  fill_sensor_event, send_sensor_event, sensor_measure_msg_handler, start_sensor_interval,
}
use zephyr_project.App.Sensor.Flow.{flow_in}
use zephyr_project.App.State.{AppState, Handler, app_env, set_app}
use zephyr_project.App.System.Fifo.{run-OnlySends}
use zephyr_project.App.System.Handlers.{Handles, Run}
use zephyr_project.App.Tasks.{TaskAddress}
use zephyr_project.App.Tasks.Startup.{Reached}
use zephyr_project.Config.SysCfg.{Nvs}
use zephyr_project.Framework.BufferPool.{buffer_pool_take, Pool}
use zephyr_project.Framework.Deliveries.{Deliveries}
use zephyr_project.Framework.Effect.{SameSetup, buffer_of, Delivered, queued}
use zephyr_project.Framework.Ownership.Mail.{mail}
use zephyr_project.Framework.Ownership.Passing.{msg_receiver-Ran, Ran}
use zephyr_project.Framework.Ownership.Receiving.{PoolIsOwned}
use zephyr_project.Framework.Ownership.Refinement.{msg_receiver-Appended}
use zephyr_project.Framework.Receiver.{msg_receiver}
use zephyr_project.Framework.Types.{Msg, msg_option_callback, sizeof_event_msg, max_msg_recvs}
use zephyr_project.Framework.World.{MsgTaskEntry, World, get_msg}
use zephyr_project.Platform.{Platform}
use zephyr_project.Prelude.{
  List, Option, [], add32, ap, get_or, if_elim, if◌then◌else◌, some, sym, true, ℕ, ◌++◌, ◌==◌, ◌∙◌,
  ◌∷◌, ◌≡◌, ◌≢◌, ==_ne, ==_refl, refl, length, ◌<◌,
}
use zephyr_project.Framework.SysMsg.Progress.{Accepts}

module _ {p : Platform} {n : Nvs} where
  -- Between two states the task at `a` received the message in front of `ms`, and sent `m'` to the queue at `q'`.
  pub record Hop (w w' : World (app_env p n)) (a : TaskAddress) (ms : List Msg) (q' : ℕ) (m' : Msg)
      : Type 0 where
    pub pool : PoolIsOwned w'
    pub setup : SameSetup w w'
    pub frame : w'.app.tx_data ≡ w.app.tx_data
    pub mail_after :
        let rest : ℕ → List Msg = λ q. if q == a.p_queue then ms else mail w q in
        (q : ℕ) → mail w' q ≡ (if q == q' then rest q' ++ m' ∷ [] else rest q)

  -- Neither a measurement nor an event that is passed on touches the frame.
  pub sensor_measure-tx_data :
      (remaining : ℕ) (w : World (app_env p n))
      → (sensor_measure_msg_handler remaining w).1.app.tx_data ≡ w.app.tx_data
  unfolding sensor_measure_msg_handler send_sensor_event start_sensor_interval
  sensor_measure-tx_data remaining w =
      let v = flow_in n w.app.store in
      let kept =
        ap (λ (x : AppState n). x.tx_data)
          (take_fill_send-app sizeof_event_msg (fill_sensor_event sensor_event_water_flow v) w) in
      if_elim (λ (x : World (app_env p n)). x.app.tx_data ≡ w.app.tx_data) (remaining == 0)
        (λ _. kept) (λ _. kept)

  pub event_msg-tx_data :
      (timestamp p_msg : ℕ) (w : World (app_env p n))
      → (event_msg_handler timestamp p_msg w).1.app.tx_data ≡ w.app.tx_data
  unfolding event_msg_handler send_event_msg_lorawan
  event_msg-tx_data timestamp p_msg w =
      let words = (get_msg w p_msg).payload in
      let id = w.app.event_task_event_id in
      let fill = fill_control_event (get_or words 0 0) (get_or words 1 0) id timestamp in
      let counted = set_app (record (w.app) { event_task_event_id = add32 id 1 }) w in
      if_elim
        (λ (x : World (app_env p n)).
          (take_fill_send sizeof_event_msg fill x).app.tx_data ≡ w.app.tx_data)
        ((buffer_pool_take p sizeof_event_msg w.pool).0 == 0)
        (λ _. ap (λ (x : AppState n). x.tx_data) (take_fill_send-app sizeof_event_msg fill w))
        (λ _. ap (λ (x : AppState n). x.tx_data) (take_fill_send-app sizeof_event_msg fill counted))

  -- The queue that is posted to, when it was empty.
  pub mail-target :
      {w w' : World (app_env p n)} {a : TaskAddress} {ms : List Msg} {q' : ℕ} {m' : Msg}
      → Hop w w' a ms q' m'
      → q' ≢ a.p_queue
      → mail w q' ≡ []
      → mail w' q' ≡ m' ∷ []
  mail-target {a = a} {q' = q'} hop other none_yet =
      hop.mail_after q' ∙ rw (==_refl q', ==_ne q' a.p_queue other, none_yet) refl

  -- A queue that has nothing to do with the hop.
  pub mail-aside :
      {w w' : World (app_env p n)} {a : TaskAddress} {ms : List Msg} {q' : ℕ} {m' : Msg}
      → Hop w w' a ms q' m'
      → (q : ℕ) → q ≢ a.p_queue
      → q ≢ q'
      → mail w' q ≡ mail w q
  mail-aside {a = a} {q' = q'} hop q other other' =
      hop.mail_after q ∙ rw (==_ne q q' other', ==_ne q a.p_queue other) refl

  -- What a task that is reached by its id accepts.
  pub Reached-Accepts :
      {w : World (app_env p n)} {id : ℕ} {a : TaskAddress} {dispatcher : ℕ → Option Handler}
      → Reached w id a dispatcher
      → id < max_msg_recvs
      → a.rxer ≢ 0
      → a.p_queue ≢ 0
      → length (queued w a.p_queue) < p.max_msgs (w.queue a.p_queue)
      → Accepts w id
  Reached-Accepts {w} {id} {a} reached below some_rxer some_queue room = record {
    below = below;
    used = ap (λ (x : MsgTaskEntry). x.in_use) reached.entry;
    some_recv = λ e. some_rxer (sym (ap (λ (x : MsgTaskEntry). x.p_msg_recv) reached.entry) ∙ e);
    some_queue = λ e. some_queue (sym reached.queue ∙ e);
    room = subst (λ (q : ℕ). length (queued w q) < p.max_msgs (w.queue q)) (sym reached.queue) room;
  }

  -- There is room in the queue at `q`, and a free buffer for an event.
  abbrev pub CanPost : World (app_env p n) → ℕ → Type 0
  CanPost w q =
      (length (queued w q) < p.max_msgs (w.queue q))
      × ((buffer_pool_take p sizeof_event_msg w.pool).0 ≢ 0)

  pub CanPost-kept :
      (w w' : World (app_env p n)) (q : ℕ)
      → w'.queue q ≡ w.queue q
      → w'.pool ≡ w.pool
      → CanPost w q
      → CanPost w' q
  CanPost-kept w w' q queue pool (room, some_buffer) = (
    subst (λ (x : p.Msgq). length (p.contents x) < p.max_msgs x) (sym queue) room,
    subst (λ (s : Pool p). (buffer_pool_take p sizeof_event_msg s).0 ≢ 0) (sym pool) some_buffer,
  )

  pub Delivered-as :
      {w w' : World (app_env p n)} {b q q' : ℕ} {m m' : Msg}
      → q ≡ q'
      → m ≡ m'
      → Delivered w w' b q m
      → Delivered w w' b q' m'
  Delivered-as {w} {w'} {b} {q} {q'} {m} {m'} to as_ d =
      subst (λ (x : ℕ). Delivered w w' b x m') to (subst (λ (x : Msg). Delivered w w' b q x) as_ d)

  module _ {control : TaskAddress} {run : Run p n}
      {callback : ℕ → ℕ → World (app_env p n) → World (app_env p n)} (handles : Handles control run)
      (calls : (cb arg : ℕ) (w : World (app_env p n)) → Deliveries w (callback cb arg w)) where
    -- A task that is reached by its id runs the handler for the message in front of its queue.
    pub receive-Ran :
        {w : World (app_env p n)} {id : ℕ} (a : TaskAddress) (dispatcher : ℕ → Option Handler)
        (h : Handler) (m : Msg) (ms : List Msg)
        → Reached w id a dispatcher
        → a.rxer ≢ 0
        → a.p_queue ≢ 0
        → PoolIsOwned w
        → mail w a.p_queue ≡ m ∷ ms
        → dispatcher m.header.msg_code ≡ some h
        → (bit_and m.header.options msg_option_callback == 0) ≡ true
        → let w' = msg_receiver run callback a.rxer w in
          Ran run callback h a.rxer w w' m a.p_queue ms × PoolIsOwned w' × SameSetup w w'
    receive-Ran {w} {id} a dispatcher h m ms reached some_rxer some_queue pool first known plain =
        let own : (w.recv a.rxer).p_queue ≡ a.p_queue =
          ap (λ (x : MsgTaskEntry). (w.recv x.p_msg_recv).p_queue) (sym reached.entry)
          ∙ reached.queue in
        let sends = run-OnlySends handles calls in
        let some_queue' : (w.recv a.rxer).p_queue ≢ 0 = λ e. some_queue (sym own ∙ e) in
        let first' : mail w (w.recv a.rxer).p_queue ≡ m ∷ ms = ap (mail w) own ∙ first in
        let (x, pool', setup) =
          msg_receiver-Appended run callback sends a.rxer w dispatcher m ms some_rxer some_queue'
            reached.dispatches pool first' in
        (
          subst (λ (q : ℕ). Ran run callback h a.rxer w (msg_receiver run callback a.rxer w) m q ms)
              own
              (msg_receiver-Ran run callback sends a.rxer w dispatcher h m ms some_rxer some_queue'
                reached.dispatches pool first' known plain),
          pool',
          setup,
        )

    -- Where the handler posts `m'` and leaves the frame alone, that is a hop.
    pub Ran-Hop :
        {w w' : World (app_env p n)} {h : Handler} {m : Msg} (a : TaskAddress) (ms : List Msg)
        (q' : ℕ) (m' : Msg) (b : ℕ) (x : Ran run callback h a.rxer w w' m a.p_queue ms)
        → PoolIsOwned w'
        → SameSetup w w'
        → let after = (run h a.rxer (buffer_of (app_env p n) x.block) x.before).1 in
          (after.app.tx_data ≡ x.before.app.tx_data)
          → Delivered x.before after b q' m'
          → Hop w w' a ms q' m'
    Ran-Hop a ms q' m' b x pool setup kept created = record {
      pool = pool;
      setup = setup;
      frame =
          ap (λ (s : AppState n). s.tx_data) x.app
          ∙ kept
          ∙ ap (λ (s : AppState n). s.tx_data) x.same_app;
      mail_after = x.mail_after b q' m' created;
    }
