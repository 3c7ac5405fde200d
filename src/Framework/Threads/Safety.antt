-- ===== src/Framework/Threads/Safety.antt =====
-- When a program is safe: it touches, queues and frees only buffers that it holds, and passes each on
-- or frees it.
pub mod Senders
pub mod Receivers
use mathlib.Core.Path.{fun_ext}
use zephyr_project.Framework.Effect.{buffer_of}
use zephyr_project.Framework.Threads.{
  Prog, and_then, done, free_buffer, get_from, on_app, put_msg, read_msg, take_buffer, write_msg,
  call_timer, Now, calling, counting, noting, releasing,
}
use zephyr_project.Framework.Types.{Msg}
use zephyr_project.Framework.World.{Env}
use zephyr_project.Prelude.{
  Bool, arith, false, if◌then◌else◌, refl, true, ℕ, ◌<◌, ◌==◌, ◌^◌, ◌≡◌, ◌⊎◌,
}
use zephyr_project.Prelude.Int.{is_zero, ℤ}
use zephyr_project.Framework.Deliveries.{sent}

-- The blocks that a thread holds, when it gets one or gives one up.
abbrev pub gain : ℕ → (ℕ → Bool) → ℕ → Bool
gain b held a = if a == b then true else held a

abbrev pub drop : ℕ → (ℕ → Bool) → ℕ → Bool
drop b held a = if a == b then false else held a

abbrev pub nothing : ℕ → Bool
nothing _ = false

pub drop-gain : (b : ℕ) (held : ℕ → Bool) → held b ≡ false → drop b (gain b held) ≡ held
drop-gain b held free = fun_ext (λ a. ground arith)

pub drop-nothing : (b : ℕ) → drop b (gain b nothing) ≡ nothing
drop-nothing b = drop-gain b nothing refl

-- `p` is the address of a buffer in a block that is held.
abbrev pub Holds : Env → (ℕ → Bool) → ℕ → Type 0
Holds e held p = (b : ℕ) × (p ≡ buffer_of e b) × (held b ≡ true)

-- A program that ends with nothing in its hands.
abbrev pub EndsEmpty : {A : Type 0} → A → (ℕ → Bool) → Type 0
EndsEmpty a held = held ≡ nothing

module _ {e : Env} where
  -- Whatever the calls return, the program keeps to the blocks that it holds, takes buffers of less
  -- than 64 KiB, and ends with blocks and a result for which `Ends` holds.
  abbrev pub Safe : {A : Type 0} → (A → (ℕ → Bool) → Type 0) → (ℕ → Bool) → Prog e A → Type 0
  Safe Ends held (done a) = Ends a held
  Safe Ends held (take_buffer t n k) =
      (n < 2 ^ 16)
      × Safe Ends held (k 0)
      × ((b : ℕ) → held b ≡ false → Safe Ends (gain b held) (k (buffer_of e b)))
  Safe Ends held (read_msg p k) = Holds e held p × ((m : Msg) → Safe Ends held (k m))
  Safe Ends held (write_msg p m k) = Holds e held p × Safe Ends held k
  Safe Ends held (put_msg q p t k) =
      (b : ℕ) × (p ≡ buffer_of e b)
      × (held b ≡ true)
      × ((z : ℤ) → is_zero z ≡ true → Safe Ends (drop b held) (k z))
      × ((z : ℤ) → is_zero z ≡ false → Safe Ends held (k z))
  Safe Ends held (get_from q t k) =
      ((z : ℤ) (p : ℕ) → is_zero z ≡ false → Safe Ends held (k z p))
      × ((z : ℤ) (b : ℕ)
          → is_zero z ≡ true
          → held b ≡ false
          → Safe Ends (gain b held) (k z (buffer_of e b)))
  Safe Ends held (free_buffer p k) =
      (b : ℕ) × (p ≡ buffer_of e b) × (held b ≡ true) × Safe Ends (drop b held) k
  Safe Ends held (call_timer c k) = Safe Ends held k
  Safe Ends held (on_app g k) = (x : e.App) → Safe Ends held (k x)

  -- A safe program and then one that is safe with what the first ends with.
  pub and_then-Safe :
      {A B : Type 0} (Ends : B → (ℕ → Bool) → Type 0) (Mid : A → (ℕ → Bool) → Type 0)
      (f : A → Prog e B) (held : ℕ → Bool) (c : Prog e A)
      → ((a : A) (h : ℕ → Bool) → Mid a h → Safe Ends h (f a))
      → Safe Mid held c
      → Safe Ends held (and_then c f)
  and_then-Safe Ends Mid f held (done a) g s = g a held s
  and_then-Safe Ends Mid f held (take_buffer t n k) g (small, failed, got) = (
    small,
    and_then-Safe Ends Mid f held (k 0) g failed,
    λ b free. and_then-Safe Ends Mid f (gain b held) (k (buffer_of e b)) g (got b free),
  )
  and_then-Safe Ends Mid f held (read_msg p k) g (mine, rest) =
      (mine, λ m. and_then-Safe Ends Mid f held (k m) g (rest m))
  and_then-Safe Ends Mid f held (write_msg p m k) g (mine, rest) =
      (mine, and_then-Safe Ends Mid f held k g rest)
  and_then-Safe Ends Mid f held (put_msg q p t k) g (b, is_p, mine, accepted, full) = (
    b,
    is_p,
    mine,
    λ z ok. and_then-Safe Ends Mid f (drop b held) (k z) g (accepted z ok),
    λ z bad. and_then-Safe Ends Mid f held (k z) g (full z bad),
  )
  and_then-Safe Ends Mid f held (get_from q t k) g (failed, got) = (
    λ z p bad. and_then-Safe Ends Mid f held (k z p) g (failed z p bad),
    λ z b ok free. and_then-Safe Ends Mid f (gain b held) (k z (buffer_of e b)) g (got z b ok free),
  )
  and_then-Safe Ends Mid f held (free_buffer p k) g (b, is_p, mine, rest) =
      (b, is_p, mine, and_then-Safe Ends Mid f (drop b held) k g rest)
  and_then-Safe Ends Mid f held (call_timer c k) g rest = and_then-Safe Ends Mid f held k g rest
  and_then-Safe Ends Mid f held (on_app c k) g rest =
      λ x. and_then-Safe Ends Mid f held (k x) g (rest x)

  -- A thread is safe where it stands.
  abbrev pub SafeNow : (ℕ → Bool) → Now e → Type 0
  SafeNow held (calling c) = Safe EndsEmpty held c
  SafeNow held (counting t n p c) =
      (n < 2 ^ 16) × ((p ≡ 0) ⊎ Holds e held p) × Safe EndsEmpty held c
  SafeNow held (noting p c) = Safe EndsEmpty held c
  SafeNow held (releasing p c) =
      (b : ℕ) × (p ≡ buffer_of e b) × (held b ≡ true) × Safe EndsEmpty (drop b held) c
