-- ===== src/Framework/Threads.antt =====
-- The code of lib/framework as its threads run it: a program is a sequence of calls on the buffer
-- pool and the queues and of accesses to messages, and between two steps of a thread any other thread
-- or an interrupt may run. A call on a queue and an access to a message is one step; taking and
-- freeing a buffer is one step for each critical section of buffer_pool.c. What the thread does next may depend on what
-- a call returned.
pub mod Calls
pub mod Running
pub mod Agreement
pub mod Rounds
pub mod Safety
pub mod Holding
pub mod Stepping
pub mod Interleaving
pub mod Uninterrupted
pub mod Books
pub mod Races
use zephyr_project.Framework.BufferPool.{Pool, buffer_pool_take, buffer_pool_try_to_take}
use zephyr_project.Framework.Types.{Msg}
use zephyr_project.Framework.World.{
  Env, World, free_msg, get_msg, set_msg, set_pool, TimerCall, log_timer,
}
use zephyr_project.Platform.{Timeout}
use zephyr_project.Prelude.{update, ℕ}
use zephyr_project.Prelude.Int.{ℤ}
use zephyr_project.Framework.BufferPool.Parts.{
  allocate, count_give, count_take, note_failure, release,
}

-- How a buffer is taken: `buffer_pool_take`, or `buffer_pool_try_to_take`.
pub data Taking : Type 0 where
  by_take by_try : Taking

-- `on_app` is one access to the application's own state, which `k` gets as it was before.
pub data Prog (e : Env) (A : Type 0) : Type 0 where
  done : A → Prog e A
  take_buffer : Taking → ℕ → (ℕ → Prog e A) → Prog e A
  read_msg : ℕ → (Msg → Prog e A) → Prog e A
  write_msg : ℕ → Msg → Prog e A → Prog e A
  put_msg : ℕ → ℕ → Timeout → (ℤ → Prog e A) → Prog e A
  get_from : ℕ → Timeout → (ℤ → ℕ → Prog e A) → Prog e A
  free_buffer : ℕ → Prog e A → Prog e A
  call_timer : TimerCall → Prog e A → Prog e A
  on_app : (e.App → e.App) → (e.App → Prog e A) → Prog e A

-- Where a thread stands: before the next call of its program, or inside a take or a free, of the buffer
-- `p`: after k_heap_alloc and before the statistics, before the flag of the first failure, or after
-- the statistics and before k_heap_free.
pub data Now (e : Env) : Type 0 where
  calling : Prog e Unit → Now e
  counting : (t : Taking) (n p : ℕ) → Prog e Unit → Now e
  noting : (p : ℕ) → Prog e Unit → Now e
  releasing : (p : ℕ) → Prog e Unit → Now e

module _ {e : Env} {A B : Type 0} where
  abbrev pub and_then : Prog e A → (A → Prog e B) → Prog e B
  and_then (done a) f = f a
  and_then (take_buffer t n k) f = take_buffer t n (λ p. and_then (k p) f)
  and_then (read_msg p k) f = read_msg p (λ m. and_then (k m) f)
  and_then (write_msg p m k) f = write_msg p m (and_then k f)
  and_then (put_msg q p t k) f = put_msg q p t (λ z. and_then (k z) f)
  and_then (get_from q t k) f = get_from q t (λ z p. and_then (k z p) f)
  and_then (free_buffer p k) f = free_buffer p (and_then k f)
  and_then (call_timer c k) f = call_timer c (and_then k f)
  and_then (on_app g k) f = on_app g (λ x. and_then (k x) f)

module _ {e : Env} where
  abbrev pub taken_by : Taking → ℕ → World e → ℕ × Pool e.platform
  taken_by by_take n w = buffer_pool_take e.platform n w.pool
  taken_by by_try n w = buffer_pool_try_to_take e.platform n w.pool

  abbrev pub put_at : ℕ → ℕ → Timeout → World e → ℤ × World e
  put_at q p t w =
      let r = e.platform.k_msgq_put (w.queue q) p t in
      (r.0, record w { queue = update w.queue q r.1 })

  abbrev pub get_at : ℕ → Timeout → World e → ℤ × ℕ × World e
  get_at q t w =
      let r = e.platform.k_msgq_get (w.queue q) t in
      (r.0, r.1, record w { queue = update w.queue q r.2 })

  -- The next step of a thread.
  abbrev pub exec : Now e → World e → Now e × World e
  exec (calling (done a)) w = (calling (done a), w)
  exec (calling (take_buffer t n k)) w =
      let r = allocate e.platform n w.pool in (counting t n r.0 (k r.0), set_pool r.1 w)
  exec (calling (read_msg p k)) w = (calling (k (get_msg w p)), w)
  exec (calling (write_msg p m k)) w = (calling k, set_msg p m w)
  exec (calling (put_msg q p t k)) w = let r = put_at q p t w in (calling (k r.0), r.1)
  exec (calling (get_from q t k)) w = let r = get_at q t w in (calling (k r.0 r.1), r.2)
  exec (calling (free_buffer p k)) w = (releasing p k, set_pool (count_give e.platform p w.pool) w)
  exec (calling (call_timer c k)) w = (calling k, log_timer c w)
  exec (calling (on_app g k)) w = (calling (k w.app), record w { app = g w.app })
  exec (counting by_take n p c) w = (noting p c, set_pool (count_take e.platform n p w.pool) w)
  exec (counting by_try n p c) w = (calling c, set_pool (count_take e.platform n p w.pool) w)
  exec (noting p c) w = (calling c, set_pool (note_failure e.platform p w.pool) w)
  exec (releasing p c) w = (calling c, set_pool (release e.platform p w.pool) w)

  -- The whole program, with nothing in between.
  abbrev pub run_alone : {A : Type 0} → Prog e A → World e → A × World e
  run_alone (done a) w = (a, w)
  run_alone (take_buffer t n k) w = let r = taken_by t n w in run_alone (k r.0) (set_pool r.1 w)
  run_alone (read_msg p k) w = run_alone (k (get_msg w p)) w
  run_alone (write_msg p m k) w = run_alone k (set_msg p m w)
  run_alone (put_msg q p t k) w = let r = put_at q p t w in run_alone (k r.0) r.1
  run_alone (get_from q t k) w = let r = get_at q t w in run_alone (k r.0 r.1) r.2
  run_alone (free_buffer p k) w = run_alone k (free_msg p w)
  run_alone (call_timer c k) w = run_alone k (log_timer c w)
  run_alone (on_app g k) w = run_alone (k w.app) (record w { app = g w.app })
