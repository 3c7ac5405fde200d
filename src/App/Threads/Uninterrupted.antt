-- ===== src/App/Threads/Uninterrupted.antt =====
-- A task's round among the firmware's threads, when the other threads do nothing in the meantime.
use Prim.{tt}
use zephyr_project.App.State.{app_env}
use zephyr_project.App.System.Handlers.{Handles, Run}
use zephyr_project.App.Tasks.{TaskAddress}
use zephyr_project.App.Threads.{Answers, handler_calls}
use zephyr_project.App.Threads.Firmware.{Runs, round}
use zephyr_project.App.Threads.Rounds.{receiver_calls-IsRound}
use zephyr_project.Config.SysCfg.{Nvs}
use zephyr_project.Framework.Receiver.{msg_receiver}
use zephyr_project.Framework.Threads.{Prog, done, run_alone, calling}
use zephyr_project.Framework.Threads.Calls.{receiver_calls}
use zephyr_project.Framework.Threads.Interleaving.{Threads}
use zephyr_project.Framework.Threads.Uninterrupted.{Completes, NeverWaits, start-Completes}
use zephyr_project.Framework.World.{World}
use zephyr_project.Platform.{Platform}
use zephyr_project.Prelude.{ℕ, ◌≡◌}
use mathlib.Core.Path.{subst}

module _ {p : Platform} {n : Nvs} (control : TaskAddress)
    (callback : ℕ → ℕ → Prog (app_env p n) Unit) (run : Run p n) (k : Handles control run) where
  -- When `run` is the handlers of the three tasks, and a task's round, run without interruption, never
  -- waits for a message whatever the radio, the timer and the clock answer: a thread that is done
  -- can start that round and finish it in turns of the firmware's threads, after which the state is
  -- what `msg_receiver` makes of it, the thread is done, and the others are where they were.
  pub msg_receiver-Completes :
      (task : TaskAddress) (i : ℕ) (s : Threads (app_env p n))
      → s.prog i ≡ calling (done tt)
      → ((x : Answers)
          → NeverWaits
              (receiver_calls s.world (handler_calls s.world control x) callback task.rxer)
              s.world)
      → Completes
          (Runs control callback)
          i
          s
          (msg_receiver run (λ cb arg v. (run_alone (callback cb arg) v).1) task.rxer s.world)
  msg_receiver-Completes task i s ended never =
      let (x, same) = receiver_calls-IsRound control callback run k task.rxer s.world in
      subst (λ (w : World (app_env p n)). Completes (Runs control callback) i s w) same
        (start-Completes (Runs control callback) i _ s ended (round task x) (never x))
