-- ===== src/App/System/Fifo.antt =====
-- The ownership of the buffers and the order of the messages over a run of the program.
use zephyr_project.App.Sensor.{power_timer_callback, sensor_read_timer_callback, water_flower_check}
use zephyr_project.App.State.{app_env}
use zephyr_project.App.System.Handlers.{Handles, Run, run-Sends}
use zephyr_project.App.System.Run.{
  Step, Steps, flow_edge, interrupt, no_more, one_more, power_timer, receives, sensor_timer,
  task_timer, took_from, sensor_thread, shell_sets,
}
use zephyr_project.App.System.Sends.{
  create-Deliveries, set_app-Deliveries, init_interval_timers-Deliveries,
}
use zephyr_project.App.Tasks.{TaskAddress}
use zephyr_project.Config.SysCfg.{Nvs}
use zephyr_project.Framework.Deliveries.{
  Deliveries, Deliveries-SameSetup, Posts-Deliveries, next, aside-Deliveries,
}
use zephyr_project.Framework.Effect.{SameSetup}
use zephyr_project.Framework.Ownership.Mail.{Appended-suffix, Deliveries-Appended, mail}
use zephyr_project.Framework.Ownership.Receiving.{Deliveries-PoolIsOwned, OnlySends, PoolIsOwned}
use zephyr_project.Framework.Ownership.Refinement.{msg_receiver-Appended}
use zephyr_project.Framework.Timer.{periodic_timer_callback_isr}
use zephyr_project.Framework.Timer.Periodic.{periodic_timer_callback_isr-Posts}
use zephyr_project.Framework.Types.{Msg}
use zephyr_project.Framework.World.{World}
use zephyr_project.Platform.{Platform}
use zephyr_project.Prelude.{
  Bool-cases, List, Option, [], append-nil, append_assoc, inl, inr, none, refl, sym, true, ℕ, ◌++◌,
  ◌==◌, ◌∙◌, ◌∷◌, ◌≡◌, ap, if◌then◌else◌, some, ==_iff,
}
use zephyr_project.Framework.Receiver.{msg_receiver}

-- The mailbox at `q'` loses its first message, and then messages are appended.
receive-fifo :
    (u v : ℕ → List Msg) (m : Msg) (ms added : List Msg) (q q' : ℕ)
    → u q' ≡ m ∷ ms
    → v q ≡ (if q == q' then ms else u q) ++ added
    → took_from q (some (q', m)) ++ v q ≡ u q ++ added
receive-fifo u v m ms added q q' first e = elim (Bool-cases (q == q')) [
  | inl here ↦
      let e' = rw here at e in
      let all : u q ≡ m ∷ ms = ap u ((==_iff q q').0 here) ∙ first in rw (here, all, e') refl
  | inr away ↦ let e' = rw away at e in rw away e'
]

chain :
    (g₁ g₂ u v w x y : List Msg)
    → g₁ ++ v ≡ u ++ x
    → g₂ ++ w ≡ v ++ y
    → (g₁ ++ g₂) ++ w ≡ u ++ (x ++ y)
chain g₁ g₂ u v w x y e e' =
    let e₁ : g₁ ++ (v ++ y) ≡ u ++ (x ++ y) =
      sym (append_assoc g₁ v y) ∙ ap (λ (l : List Msg). l ++ y) e ∙ append_assoc u x y in
    append_assoc g₁ g₂ w ∙ ap (λ (l : List Msg). g₁ ++ l) e' ∙ e₁

module _ {p : Platform} {n : Nvs} {control : TaskAddress} {run : Run p n}
    {callback : ℕ → ℕ → World (app_env p n) → World (app_env p n)} (handles : Handles control run)
    (calls : (cb arg : ℕ) (w : World (app_env p n)) → Deliveries w (callback cb arg w)) where
  pub run-OnlySends : OnlySends {e = app_env p n} run callback
  run-OnlySends = record {
    handler = λ h r m w. (run-Sends handles h r m w).0;
    frees = λ h r m w. (run-Sends handles h r m w).1;
    callback = calls;
  }

  interrupt-Deliveries :
      (f : World (app_env p n) → World (app_env p n))
      → ((w : World (app_env p n)) → Deliveries w (f w))
      → (w : World (app_env p n)) → Deliveries w (interrupt f w)
  interrupt-Deliveries f sends w =
      let w₁ : World (app_env p n) = record w { in_isr = true } in
      next (next {v = w₁} (aside-Deliveries _ _ refl refl refl refl) (sends w₁))
        (aside-Deliveries _ _ refl refl refl refl)

  -- What a step keeps.
  record Advances (o : Option (ℕ × Msg)) (w w' : World (app_env p n)) : Type 0 where
    pool : PoolIsOwned w'
    setup : SameSetup w w'
    fifo : (q : ℕ) → (added : List Msg) × (took_from q o ++ mail w' q ≡ mail w q ++ added)

  sends-Advances :
      {w w' : World (app_env p n)} → PoolIsOwned w → Deliveries w w' → Advances none w w'
  sends-Advances i d = record {
    pool = Deliveries-PoolIsOwned i d;
    setup = Deliveries-SameSetup d;
    fifo = Appended-suffix (Deliveries-Appended i.owned d);
  }

  interrupt-Advances :
      {w : World (app_env p n)} (f : World (app_env p n) → World (app_env p n))
      → ((v : World (app_env p n)) → Deliveries v (f v))
      → PoolIsOwned w
      → Advances none w (interrupt f w)
  interrupt-Advances {w} f sends i = sends-Advances i (interrupt-Deliveries f sends w)

  Step-Advances :
      {o : Option (ℕ × Msg)} {w w' : World (app_env p n)}
      → PoolIsOwned w
      → Step run callback o w w'
      → Advances o w w'
  unfolding power_timer_callback sensor_read_timer_callback water_flower_check
  Step-Advances {w = w} i (receives p_rxer dispatch m ms some_rxer some_queue dispatcher first) =
      let q' = (w.recv p_rxer).p_queue in
      let (a, pool, setup) =
        msg_receiver-Appended run callback run-OnlySends p_rxer w dispatch m ms some_rxer some_queue
          dispatcher i first in
      record {
        pool = pool;
        setup = setup;
        fifo = λ q.
            let (added, e) = Appended-suffix a q in
            (
              added,
              receive-fifo (mail w) (mail (msg_receiver run callback p_rxer w)) m ms added q q'
                  first e,
            );
      }
  Step-Advances {w = w} i (sensor_thread power sensor_read remaining) =
      sends-Advances i (init_interval_timers-Deliveries power sensor_read remaining w)
  Step-Advances {w = w} i (shell_sets argv) = sends-Advances i (set_app-Deliveries _ w)
  Step-Advances {w = w} i power_timer =
      interrupt-Advances power_timer_callback (λ v. create-Deliveries _ _ _ v) i
  Step-Advances {w = w} i sensor_timer =
      interrupt-Advances sensor_read_timer_callback (λ v. create-Deliveries _ _ _ v) i
  Step-Advances {w = w} i (task_timer t) =
      interrupt-Advances (periodic_timer_callback_isr t)
        (λ v. Posts-Deliveries _ _ (periodic_timer_callback_isr-Posts t v)) i
  Step-Advances {w = w} i flow_edge =
      interrupt-Advances water_flower_check (λ v. set_app-Deliveries _ v) i

  -- When the handlers are those of the three tasks and the callbacks only send: from a state in which
  -- each allocated block stands in exactly one queue, once, and the queues hold nothing else, every
  -- run of steps leads to such a state, with the same receivers and registry.
  pub Steps-PoolIsOwned :
      {taken : ℕ → List Msg} {w w' : World (app_env p n)}
      → PoolIsOwned w
      → Steps run callback taken w w'
      → PoolIsOwned w' × SameSetup w w'
  Steps-PoolIsOwned i no_more = (i, (refl, refl))
  Steps-PoolIsOwned i (one_more o taken s more) =
      let k = Step-Advances i s in
      let (pool, (a, b)) = Steps-PoolIsOwned k.pool more in (pool, (a ∙ k.setup.0, b ∙ k.setup.1))

  -- When the handlers are those of the three tasks and the callbacks only send: in every run of steps
  -- from a state in which each allocated block stands in exactly one queue, the messages that were
  -- taken from a queue, in order, and then those that are still in it, are those that were in it at
  -- first and then others, which were added behind them: no message in a queue is lost or changed,
  -- or overtakes another.
  pub Steps-Fifo :
      {taken : ℕ → List Msg} {w w' : World (app_env p n)} (q : ℕ)
      → PoolIsOwned w
      → Steps run callback taken w w'
      → (added : List Msg) × (taken q ++ mail w' q ≡ mail w q ++ added)
  Steps-Fifo {w = w} q i no_more = ([], sym (append-nil (mail w q)))
  Steps-Fifo {w = w} q i (one_more {v = v} o taken s more) =
      let k = Step-Advances i s in
      let (x, e) = k.fifo q in
      let (y, e') = Steps-Fifo q k.pool more in
      (x ++ y, chain (took_from q o) (taken q) _ _ _ x y e e')
