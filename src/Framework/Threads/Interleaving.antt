-- ===== src/Framework/Threads/Interleaving.antt =====
-- Any number of threads and interrupts on one pool and its queues, interleaved in any order.
use Prim.{tt}
use Prim.Native.Char.{code}
use zephyr_project.Framework.Ownership.{Owned, Owner}
use zephyr_project.Framework.Threads.{
  Prog, by_take, by_try, done, exec, free_buffer, get_from, on_app, put_msg, read_msg, take_buffer,
  write_msg, call_timer, Now, calling, counting, noting, releasing,
}
use zephyr_project.Framework.Threads.Safety.{EndsEmpty, Safe, nothing, SafeNow}
use zephyr_project.Framework.Threads.Stepping.{
  CanRun, Moved, get-Moved, put-Moved, stays-Moved, take-Moved, write-Moved, aside-Moved,
  release-Moved,
}
use zephyr_project.Framework.World.{Env, World, get_msg, log_timer}
use zephyr_project.Prelude.{==_iff, Bool-cases, List, arith, inl, inr, refl, update, ℕ, ◌==◌, ◌≡◌}
use zephyr_project.Framework.Threads.Holding.{hands}
use zephyr_project.Framework.BufferPool.Parts.{
  allocate, allocate-Takes, count_give-Beside, count_take-Beside, note_failure-Beside,
}

-- One step of a safe thread.
pub step-Moved :
    {e : Env} {box : ℕ → List ℕ} {owner : ℕ → Owner} (agent : ℕ → ℕ) (i : ℕ) (w : World e)
    (c : Now e)
    → Owned w box owner
    → CanRun w c
    → SafeNow (hands owner agent i) c
    → Moved owner agent i w (exec c w)
step-Moved agent i w (calling (done a)) o can safe =
    stays-Moved agent i w o (calling (done a)) w safe (λ b. refl) (λ p. refl) (λ q. refl)
      (refl, refl)
step-Moved {e = e} agent i w (calling (take_buffer t n k)) o can (small, failed, got) =
    take-Moved agent i w o t n k (allocate e.platform n w.pool) (allocate-Takes n w.pool) small
      failed got
step-Moved agent i w (calling (read_msg p k)) o can (mine, rest) =
    stays-Moved agent i w o (calling (k (get_msg w p))) w (rest (get_msg w p)) (λ b. refl)
      (λ p. refl) (λ q. refl) (refl, refl)
step-Moved agent i w (calling (write_msg p m k)) o can ((b, is_p, mine), rest) =
    rw is_p (write-Moved agent i w o b m k mine rest)
step-Moved agent i w (calling (put_msg q p t k)) o can (b, is_p, mine, accepted, full) =
    rw is_p (put-Moved agent i w o b q t k mine accepted full)
step-Moved {box = box} agent i w (calling (get_from q t k)) o can safe =
    get-Moved agent i w o q t k (box q) refl can safe
step-Moved agent i w (calling (free_buffer p k)) o can (b, is_p, mine, rest) =
    aside-Moved agent i w o (releasing p k) _ (b, is_p, mine, rest) (count_give-Beside p w.pool)
step-Moved agent i w (calling (call_timer c k)) o can rest =
    stays-Moved agent i w o (calling k) (log_timer c w) rest (λ b. refl) (λ p. refl) (λ q. refl)
      (refl, refl)
step-Moved agent i w (calling (on_app g k)) o can rest =
    stays-Moved agent i w o (calling (k w.app)) (record w { app = g w.app }) (rest w.app)
      (λ b. refl) (λ p. refl) (λ q. refl) (refl, refl)
step-Moved agent i w (counting by_take n p c) o can (small, is_p, rest) =
    aside-Moved agent i w o (noting p c) _ rest (count_take-Beside n p w.pool)
step-Moved agent i w (counting by_try n p c) o can (small, is_p, rest) =
    aside-Moved agent i w o (calling c) _ rest (count_take-Beside n p w.pool)
step-Moved agent i w (noting p c) o can rest =
    aside-Moved agent i w o (calling c) _ rest (note_failure-Beside p w.pool)
step-Moved agent i w (releasing p c) o can (b, is_p, mine, rest) =
    rw is_p (release-Moved agent i w o b c mine rest)

pub record Threads (e : Env) : Type 0 where
  pub world : World e
  pub prog : ℕ → Now e

module _ {e : Env} where
  -- Some thread takes a step of its program, unless it waits for a message; or a thread that is done
  -- starts another piece of its code: a task its next round, the interrupt of a timer its callback.
  -- `Code` has what each may run.
  pub data Turn (Code : ℕ → World e → Prog e Unit → Type 0) (s : Threads e)
      : Threads e → Type 0 where
    moves :
        (i : ℕ)
        → CanRun s.world (s.prog i)
        → Turn Code s (record {
          world = (exec (s.prog i) s.world).1;
          prog = update s.prog i (exec (s.prog i) s.world).0;
        })
    starts :
        (i : ℕ) (c : Prog e Unit)
        → s.prog i ≡ calling (done tt)
        → Code i s.world c
        → Turn Code s (record s { prog = update s.prog i (calling c) })

  pub data Turns (Code : ℕ → World e → Prog e Unit → Type 0) (s : Threads e)
      : Threads e → Type 0 where
    here : Turns Code s s
    later : {t u : Threads e} → Turns Code s t → Turn Code t u → Turns Code s u

  -- Each allocated block stands in exactly one queue, once, or is in the hands of exactly one thread,
  -- and what is left of each thread's program is safe with what it has in its hands.
  pub record Inv (s : Threads e) : Type 0 where
    pub box : ℕ → List ℕ
    pub owner : ℕ → Owner
    pub agent : ℕ → ℕ
    pub owned : Owned s.world box owner
    pub safe : (i : ℕ) → SafeNow (hands owner agent i) (s.prog i)

  -- What a thread starts is safe with nothing in its hands.
  abbrev pub IsSafeCode : (ℕ → World e → Prog e Unit → Type 0) → Type 0
  IsSafeCode Code = (i : ℕ) (w : World e) (c : Prog e Unit) → Code i w c → Safe EndsEmpty nothing c

  module _ {Code : ℕ → World e → Prog e Unit → Type 0} (code_is_safe : IsSafeCode Code) where
    Turn-Inv : {s t : Threads e} → Inv s → Turn Code s t → Inv t
    Turn-Inv {s} v (moves i can) =
        let m = step-Moved v.agent i s.world (s.prog i) v.owned can (v.safe i) in
        record {
          box = m.box';
          owner = m.owner';
          agent = m.agent';
          owned = m.owned;
          safe = λ j. elim (Bool-cases (j == i)) [
            | inl same ↦ let is_i : j ≡ i = (==_iff j i).0 same in rw (same, is_i) m.safe
            | inr other ↦ rw (other, m.others j (λ h. ground (arith, h))) (v.safe j)
          ];
        }
    Turn-Inv {s} v (starts i c ended code) = record {
      box = v.box;
      owner = v.owner;
      agent = v.agent;
      owned = v.owned;
      safe = λ j. elim (Bool-cases (j == i)) [
        | inl same ↦
            let is_i : j ≡ i = (==_iff j i).0 same in
            let none_held : hands v.owner v.agent i ≡ nothing = rw ended at (v.safe i) in
            rw (same, is_i) (rw none_held (code_is_safe i s.world c code))
        | inr other ↦ rw other (v.safe j)
      ];
    }

    pub Turns-Inv : {s t : Threads e} → Inv s → Turns Code s t → Inv t
    Turns-Inv v here = v
    Turns-Inv v (later more st) = Turn-Inv (Turns-Inv v more) st
