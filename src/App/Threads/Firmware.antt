-- ===== src/App/Threads/Firmware.antt =====
-- The firmware's threads: the rounds of the three tasks, the shell, and the interrupts.
use Prim.{tt}
use zephyr_project.App.State.{app_env}
use zephyr_project.App.Tasks.{TaskAddress}
use zephyr_project.App.Threads.{Answers, change_app, handler_calls}
use zephyr_project.App.Threads.Safety.{handler_calls-Safe}
use zephyr_project.Config.Decimal.{snprintf_u}
use zephyr_project.Config.Hash.{water_flow_key}
use zephyr_project.Config.Shell.{cmd_syscfg_set}
use zephyr_project.Config.SysCfg.{Nvs, syscfg_set}
use zephyr_project.Framework.Threads.{Prog, and_then, done, calling}
use zephyr_project.Framework.Threads.Calls.{
  create_and_send_calls, periodic_timer_calls, receiver_calls,
}
use zephyr_project.Framework.Threads.Interleaving.{Turns, Inv, IsSafeCode, Threads, Turns-Inv}
use zephyr_project.Framework.Threads.Safety.{EndsEmpty, Safe, and_then-Safe, gain, nothing}
use zephyr_project.Framework.Threads.Safety.Receivers.{HandlesSafely, receiver_calls-Safe}
use zephyr_project.Framework.Threads.Safety.Senders.{
  create_and_send_calls-Safe, periodic_timer_calls-Safe,
}
use zephyr_project.Framework.Types.{msg_id_sensor_task, smc_read_power, smc_sensor_measure}
use zephyr_project.Framework.World.{World}
use zephyr_project.Platform.{Platform}
use zephyr_project.Prelude.{List, Option, add32, arith, refl, true, ℕ, ◌≡◌, some}
use zephyr_project.Framework.BufferPool.Accounts.{Accounts}
use zephyr_project.Framework.Ownership.Receiving.{PoolIsOwned}
use zephyr_project.Framework.Threads.Races.{Alone, Inv-Alone, Inv-PoolIsOwned, at_rest-Inv, touched}
use zephyr_project.Framework.Threads.Books.Course.{Accounts-Books, Turns-Books, at_rest-Accounts}

-- The other pieces of code, each of which a thread or an interrupt runs.
module _ {p : Platform} {n : Nvs} where
  abbrev pub seen_by_isr : World (app_env p n) → World (app_env p n)
  seen_by_isr w = record w { in_isr = true }

  -- power_timer_callback and sensor_read_timer_callback
  abbrev pub interval_timer_calls : ℕ → World (app_env p n) → Prog (app_env p n) Unit
  interval_timer_calls code' s =
      and_then (create_and_send_calls s msg_id_sensor_task msg_id_sensor_task code') (λ _. done tt)

  -- water_flower_check
  abbrev pub flow_edge_calls : Prog (app_env p n) Unit
  flow_edge_calls =
      change_app (λ a. record a { water_flower_count = add32 a.water_flower_count 1 })
        (λ _.
          change_app
            (λ a. record a {
              store = (syscfg_set n water_flow_key (snprintf_u 12 a.water_flower_count) a.store).1;
            })
            (λ _. done tt))

  -- syscfg set
  abbrev pub shell_set_calls : List (Option (List ℕ)) → Prog (app_env p n) Unit
  shell_set_calls argv =
      change_app (λ a. record a { store = (cmd_syscfg_set n argv a.store).2 }) (λ _. done tt)

  module _ (control : TaskAddress) (callback : ℕ → ℕ → Prog (app_env p n) Unit) where
    -- What a thread may start when it is done, with any answers from outside: a task's next round, the
    -- shell's command, or an interrupt's callback.
    pub data Runs (i : ℕ) (w : World (app_env p n)) : Prog (app_env p n) Unit → Type 0 where
      round :
          (task : TaskAddress) (x : Answers)
          → Runs i w (receiver_calls w (handler_calls w control x) callback task.rxer)
      shell : (argv : List (Option (List ℕ))) → Runs i w (shell_set_calls argv)
      power_expires : Runs i w (interval_timer_calls smc_read_power (seen_by_isr w))
      interval_expires : Runs i w (interval_timer_calls smc_sensor_measure (seen_by_isr w))
      task_expires : (t : ℕ) → Runs i w (periodic_timer_calls (seen_by_isr w) t)
      edge : Runs i w flow_edge_calls

    -- A callback in a message is safe with that message in hand.
    abbrev pub CallsSafely : Type 0
    CallsSafely =
        (cb arg b : ℕ)
        → Safe {e = app_env p n} (λ x held. held ≡ gain b nothing) (gain b nothing)
            (callback cb arg)

    handles_safely :
        CallsSafely
        → (x : Answers) (w : World (app_env p n))
        → HandlesSafely (handler_calls w control x) callback
    handles_safely calls x w = record {
      of_handler = λ h r b. handler_calls-Safe control x h r b (gain b nothing) w (ground arith);
      of_callback = calls;
    }

    interval_timer_calls-Safe :
        (code : ℕ) (s : World (app_env p n)) → Safe EndsEmpty nothing (interval_timer_calls code s)
    interval_timer_calls-Safe code' s =
        and_then-Safe EndsEmpty (λ z h. h ≡ nothing) (λ _. done tt) nothing
          (create_and_send_calls s msg_id_sensor_task msg_id_sensor_task code') (λ z h same. same)
          (create_and_send_calls-Safe msg_id_sensor_task msg_id_sensor_task code' nothing s)

    Runs-Safe : CallsSafely → IsSafeCode Runs
    Runs-Safe calls i w _ (round task x) =
        receiver_calls-Safe (handler_calls w control x) callback (handles_safely calls x w) w
          task.rxer
    Runs-Safe calls i w _ (shell argv) = λ a. refl
    Runs-Safe calls i w _ power_expires = interval_timer_calls-Safe smc_read_power (seen_by_isr w)
    Runs-Safe calls i w _ interval_expires =
        interval_timer_calls-Safe smc_sensor_measure (seen_by_isr w)
    Runs-Safe calls i w _ (task_expires t) = periodic_timer_calls-Safe t (seen_by_isr w)
    Runs-Safe calls i w _ edge = λ a a'. refl

    module _ (calls : CallsSafely) (s t : Threads (app_env p n))
        (ended : (i : ℕ) → s.prog i ≡ calling (done tt)) (pool : PoolIsOwned s.world)
        (turns : Turns Runs s t) where
      pub reached-Inv : Inv t
      reached-Inv = Turns-Inv (Runs-Safe calls) (at_rest-Inv s pool ended) turns

      -- When the callbacks in messages are safe, no thread runs at the start and each allocated block
      -- stands in exactly one queue: however the critical sections of the pool, the calls on the queues
      -- and the accesses of the tasks' rounds, the shell and the interrupts are then interleaved,
      -- the buffer that a thread reads, writes, queues or frees next is allocated, stands in no queue,
      -- and is not what another thread reads, writes, queues or frees next.
      pub firmware-Alone : (i q : ℕ) → touched (t.prog i) ≡ some q → Alone t i q
      firmware-Alone i q next_access = Inv-Alone i q reached-Inv next_access

      -- When the callbacks in messages are safe, no thread runs at the start and each allocated block
      -- stands in exactly one queue, no buffer is lost, however the critical sections, calls and accesses
      -- are then interleaved: once no thread is in the middle of its code, each allocated block stands
      -- in exactly one queue again; and where statistics are kept and were right at the start, they are
      -- right then: the space that is available and the sizes of the allocated blocks add up to the
      -- size of the pool, and these blocks are counted (modulo 2^32).
      pub firmware-PoolIsOwned :
          (p.buffer_pool_stats ≡ true
            → (blocks : List (ℕ × ℕ)) × Accounts {p = p} s.world.pool blocks)
          → ((i : ℕ) → t.prog i ≡ calling (done tt))
          → PoolIsOwned t.world
            × (p.buffer_pool_stats ≡ true
                → (blocks : List (ℕ × ℕ)) × Accounts {p = p} t.world.pool blocks)
      firmware-PoolIsOwned books rest = (
        Inv-PoolIsOwned reached-Inv rest,
        λ stats.
            let (blocks, right) = books stats in
            let (blocks', k) =
              Turns-Books (Runs-Safe calls) stats blocks (at_rest-Inv s pool ended)
                (Accounts-Books s blocks ended right) turns in
            (blocks', at_rest-Accounts t blocks' rest k),
      )
