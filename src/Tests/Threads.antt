-- ===== src/Tests/Threads.antt =====
-- The theorems on interleaved threads and on the pool's books at concrete states.
use zephyr_project.App.Threads.Firmware.{Runs}
use zephyr_project.Tests.Base.{base, unregistered, with_msg}
use zephyr_project.Framework.Threads.Interleaving.{Turns, here, later, moves, starts}
use Prim.{tt}
use zephyr_project.App.Threads.Firmware.{
  firmware-Alone, firmware-PoolIsOwned, interval_expires, interval_timer_calls, power_expires,
  seen_by_isr,
}
use zephyr_project.Framework.BufferPool.{
  bph_size, buffer_pool_free, buffer_pool_take, buffer_pool_try_to_take,
  buffer_pool_try_to_take_timeout,
}
use zephyr_project.Framework.BufferPool.Accounts.{Accounts, Uses-Accounts, frees, takes, then_uses}
use zephyr_project.Framework.Ownership.Receiving.{PoolIsOwned, at_start-PoolIsOwned}
use zephyr_project.Framework.Threads.{Prog, done, exec, calling}
use zephyr_project.Framework.Threads.Interleaving.{Threads}
use zephyr_project.Framework.Threads.Races.{Alone}
use zephyr_project.Framework.Types.{smc_read_power, smc_sensor_measure}
use zephyr_project.Platform.Model.{model}
use zephyr_project.Prelude.{List, [], arith, refl, true, update, ℕ, ◌+◌, ◌≡◌, inl, suc, zero, ==_ne}
use zephyr_project.Tests.Base.{control_address, env}
use zephyr_project.App.State.{sensor_measure}
use zephyr_project.App.Threads.{handler_calls}
use zephyr_project.App.Threads.Handling.{quiet_answers}
use zephyr_project.App.Threads.Rounds.{IsRound, receiver_calls-IsRound}
use zephyr_project.App.Threads.Safety.{GivesBack, handler_calls-Safe}
use zephyr_project.Framework.Effect.{Queued, buffer_of}
use zephyr_project.Framework.SysCore.{msg_register_receiver, msg_send, msg_queue}
use zephyr_project.Framework.SysMsg.Progress.{msg_send-msg_register_receiver}
use zephyr_project.Framework.Threads.Safety.{Safe, gain, nothing}
use zephyr_project.Prelude.Int.{is_zero}
use zephyr_project.App.Threads.Uninterrupted.{msg_receiver-Completes}
use zephyr_project.Framework.Threads.Uninterrupted.{Completes}
use zephyr_project.Framework.Receiver.{msg_receiver}
use zephyr_project.Framework.Threads.{run_alone}
use zephyr_project.App.Tasks.{control_task_msg_dispatcher}
use zephyr_project.Tests.System.{event, run_all, run_all-Handles}
use zephyr_project.Framework.Threads.Stepping.{CanRun}

base-Accounts : Accounts {p = model} base.pool []
base-Accounts = record {
  alive = λ b. refl;
  distinct = tt;
  sized = λ b size e. cc;
  space = refl;
  counted = refl;
}

-- A buffer of twenty bytes is taken and freed again.
Uses-Accounts_example :
    (blocks : List (ℕ × ℕ)) × Accounts
      (buffer_pool_free model (1 + bph_size model.config) (buffer_pool_take model 20 base.pool).1)
      blocks
unfolding buffer_pool_take buffer_pool_try_to_take buffer_pool_try_to_take_timeout bph_size
Uses-Accounts_example =
    Uses-Accounts {p = model} refl [] base-Accounts
      (then_uses (takes 20 (omega arith)) (frees 1 refl))

abbrev no_calls : ℕ → ℕ → Prog env Unit
no_calls callback arg = done tt

-- Nothing runs; two interrupts of timers start, and each takes a buffer.
abbrev idle_threads : Threads env
idle_threads = record { world = base; prog = λ i. calling (done tt) }

abbrev one_started : Threads env
one_started = record idle_threads {
  prog =
      update idle_threads.prog 0 (calling (interval_timer_calls smc_read_power (seen_by_isr base)));
}

abbrev both_started : Threads env
both_started = record one_started {
  prog =
      update one_started.prog 1
        (calling (interval_timer_calls smc_sensor_measure (seen_by_isr base)));
}

abbrev moved_by : ℕ → Threads env → Threads env
moved_by i s = record {
  world = (exec (s.prog i) s.world).1;
  prog = update s.prog i (exec (s.prog i) s.world).0;
}

abbrev both_took : Threads env
both_took = moved_by 1 (moved_by 0 both_started)

took-Turns : Turns (Runs control_address no_calls) idle_threads both_took
took-Turns =
    later
      (later (later (later here (starts 0 _ refl power_expires)) (starts 1 _ refl interval_expires))
        (moves 0 tt))
      (moves 1 tt)

base-PoolIsOwned : PoolIsOwned base
base-PoolIsOwned = at_start-PoolIsOwned base (λ b. refl) (λ q. refl)

firmware-Alone_example : Alone both_took 0 9
unfolding bph_size
firmware-Alone_example =
    firmware-Alone control_address no_calls (λ cb arg b. refl) idle_threads both_took (λ i. refl)
      base-PoolIsOwned took-Turns 0 9 refl

-- Both go on, one step each at a time.
abbrev alternate : ℕ → Threads env → Threads env
alternate zero s = s
alternate (suc k) s = alternate k (moved_by 1 (moved_by 0 s))

abbrev CanAlternate : ℕ → Threads env → Type 0
CanAlternate zero s = Unit
CanAlternate (suc k) s =
    let u = moved_by 0 s in
    CanRun s.world (s.prog 0) × CanRun u.world (u.prog 1) × CanAlternate k (moved_by 1 u)

alternate-Turns :
    (k : ℕ) (s : Threads env)
    → CanAlternate k s
    → Turns (Runs control_address no_calls) idle_threads s
    → Turns (Runs control_address no_calls) idle_threads (alternate k s)
alternate-Turns zero s can turns = turns
alternate-Turns (suc k) s (first, second, rest) turns =
    alternate-Turns k (moved_by 1 (moved_by 0 s)) rest
      (later (later turns (moves 0 first)) (moves 1 second))

-- After eleven steps each, both are done.
abbrev both_done : Threads env
both_done = alternate 11 both_took

done-Turns : Turns (Runs control_address no_calls) idle_threads both_done
unfolding bph_size
done-Turns =
    alternate-Turns 11 both_took
      (
        tt,
        tt,
        (
          tt,
          tt,
          (
            tt,
            tt,
            (tt, tt, (tt, tt, (tt, tt, (tt, tt, (tt, tt, (tt, tt, (tt, tt, (tt, tt, tt)))))))),
          ),
        ),
      )
      took-Turns

done-rest : (i : ℕ) → both_done.prog i ≡ calling (done tt)
unfolding bph_size msg_send msg_queue
done-rest zero = refl
done-rest (suc zero) = refl
done-rest (suc (suc i)) =
    rw (==_ne (suc (suc i)) 0 (omega arith), ==_ne (suc (suc i)) 1 (omega arith)) refl

firmware-PoolIsOwned_example :
    PoolIsOwned both_done.world
    × (model.buffer_pool_stats ≡ true
        → (blocks : List (ℕ × ℕ)) × Accounts {p = model} both_done.world.pool blocks)
firmware-PoolIsOwned_example =
    firmware-PoolIsOwned control_address no_calls (λ cb arg b. refl) idle_threads both_done
      (λ i. refl) base-PoolIsOwned done-Turns (λ stats. ([], base-Accounts)) done-rest

-- The control task's round on the event in its queue.
receiver_calls-IsRound_example : IsRound control_address no_calls run_all 100 (with_msg event)
receiver_calls-IsRound_example =
    receiver_calls-IsRound control_address no_calls run_all run_all-Handles 100 (with_msg event)

-- The measurement, with the message of block 1 in hand.
handler_calls-Safe_example :
    Safe
      (GivesBack (gain 1 nothing))
      (gain 1 nothing)
      (handler_calls base control_address quiet_answers sensor_measure 200 (buffer_of env 1))
handler_calls-Safe_example =
    handler_calls-Safe control_address quiet_answers sensor_measure 200 1 (gain 1 nothing) base refl

msg_send-msg_register_receiver_example :
    let w = with_msg event in
    let w' = record w { msg_task_registry = unregistered.msg_task_registry } in
    let r = msg_send 3 9 (msg_register_receiver 300 w') in
    (is_zero r.0 ≡ true) × Queued (msg_register_receiver 300 w') r.1 13 9
msg_send-msg_register_receiver_example =
    msg_send-msg_register_receiver 300 9
      (record (with_msg event) { msg_task_registry = unregistered.msg_task_registry }) (omega arith)
      (omega arith) refl (omega arith) (omega arith) (omega arith) (omega arith)

abbrev event_threads : Threads env
event_threads = record { world = with_msg event; prog = λ i. calling (done tt) }

-- The control task's thread goes through its round on the event.
msg_receiver-Completes_example :
    Completes
      (Runs control_address no_calls)
      2
      event_threads
      (msg_receiver run_all (λ cb arg v. (run_alone (no_calls cb arg) v).1) 100 (with_msg event))
unfolding bph_size buffer_pool_take buffer_pool_try_to_take buffer_pool_try_to_take_timeout
    control_task_msg_dispatcher
msg_receiver-Completes_example =
    msg_receiver-Completes control_address no_calls run_all run_all-Handles control_address 2
      event_threads refl (λ x. (inl (λ e. cc), tt))
