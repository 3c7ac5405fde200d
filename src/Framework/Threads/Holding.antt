-- ===== src/Framework/Threads/Holding.antt =====
-- What each thread has in its hands, when a block changes its owner.
use mathlib.Core.Path.{fun_ext}
use zephyr_project.Framework.Ownership.{Owner, holder, in_queue, is_holder, is_owned, nobody, owns}
use zephyr_project.Framework.Threads.Safety.{drop, gain}
use zephyr_project.Prelude.{Bool, arith, false, refl, true, update, ℕ, ◌&&◌, ◌==◌, ◌≡◌, ◌≢◌}

abbrev pub hands : (ℕ → Owner) → (ℕ → ℕ) → ℕ → ℕ → Bool
hands owner agent i b = is_holder (owner b) && agent b == i

pub in_hand : (o : Owner) (x : Bool) → (is_holder o && x) ≡ true → (o ≡ holder) × (x ≡ true)
in_hand nobody x h = cc
in_hand holder x h = (refl, h)
in_hand (in_queue q) x h = cc

pub idle : (o : Owner) → is_owned o ≡ false → is_holder o ≡ false
idle nobody h = refl
idle holder h = cc
idle (in_queue q) h = cc

pub not_in_hand : (q : ℕ) (o : Owner) → owns q o ≡ true → is_holder o ≡ false
not_in_hand q nobody h = cc
not_in_hand q holder h = cc
not_in_hand q (in_queue a) h = refl

-- Thread `i` gets block `b`, which nobody held: its own hands, and those of another.
pub gained :
    (owner : ℕ → Owner) (agent : ℕ → ℕ) (i b : ℕ)
    → hands (update owner b holder) (update agent b i) i ≡ gain b (hands owner agent i)
gained owner agent i b = fun_ext (λ a. ground arith)

pub gained_other :
    (owner : ℕ → Owner) (agent : ℕ → ℕ) (i b j : ℕ)
    → is_holder (owner b) ≡ false
    → j ≢ i
    → hands (update owner b holder) (update agent b i) j ≡ hands owner agent j
gained_other owner agent i b j free other = fun_ext (λ a. ground arith)

-- Thread `i` gives block `b` up to an owner `o` that is no thread.
pub dropped :
    (owner : ℕ → Owner) (agent : ℕ → ℕ) (i b : ℕ) (o : Owner)
    → is_holder o ≡ false
    → hands (update owner b o) agent i ≡ drop b (hands owner agent i)
dropped owner agent i b o rest = fun_ext (λ a. ground arith)

pub dropped_other :
    (owner : ℕ → Owner) (agent : ℕ → ℕ) (i b j : ℕ) (o : Owner)
    → is_holder o ≡ false
    → hands owner agent i b ≡ true
    → j ≢ i
    → hands (update owner b o) agent j ≡ hands owner agent j
dropped_other owner agent i b j o rest mine other = fun_ext (λ a. ground arith)
