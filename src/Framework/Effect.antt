-- ===== src/Framework/Effect.antt =====
-- What the senders promise of the state: a message stands at the end of one queue, or nothing moved.
use zephyr_project.Prelude.{
  Bool, ℕ, ◌+◌, ◌≡◌, true, false, List, [], ◌∷◌, ◌++◌, ◌==◌, if◌then◌else◌, arith, inr, refl, ◌⊎◌,
  ◌≢◌,
}
use zephyr_project.Framework.Types.{Msg}
use zephyr_project.Framework.BufferPool.{bph_size}
use zephyr_project.Framework.World.{Env, World, get_msg}

-- The address of the buffer in block `b`.
abbrev pub buffer_of : Env → ℕ → ℕ
buffer_of e b = b + bph_size e.platform.config

-- The buffers in the blocks of a list, and whether a block is in one.
abbrev pub buffers : Env → List ℕ → List ℕ
buffers e [] = []
buffers e (b ∷ bs) = buffer_of e b ∷ buffers e bs

abbrev pub has_block : ℕ → List ℕ → Bool
has_block a [] = false
has_block a (b ∷ bs) = if a == b then true else has_block a bs

pub buffer_of_ne_zero : (e : Env) (b : ℕ) → buffer_of e b ≢ 0
unfolding bph_size
buffer_of_ne_zero e b h = ground arith

pub buffer_of-ne : (e : Env) (a b : ℕ) → (a == b) ≡ false → (buffer_of e a == buffer_of e b) ≡ false
buffer_of-ne e a b ne = ground arith

module _ {e : Env} where
  -- The messages in the queue at `q`, oldest first, and whether `b` is an allocated block.
  abbrev pub queued : World e → ℕ → List ℕ
  queued w q = e.platform.contents (w.queue q)

  abbrev pub live : World e → ℕ → Bool
  live w b = e.platform.live w.pool.heap b

  -- Who receives stays as it is: the receiver objects and the registry.
  abbrev pub SameSetup : World e → World e → Type 0
  SameSetup w w' = (w'.recv ≡ w.recv) × (w'.msg_task_registry ≡ w.msg_task_registry)

  -- `p` went to the end of the queue at `q`; no other queue and no block changed.
  pub record Queued (w w' : World e) (q p : ℕ) : Type 0 where
    pub heap : w'.pool.heap ≡ w.pool.heap
    pub contents : (a : ℕ) → queued w' a ≡ (if a == q then queued w q ++ p ∷ [] else queued w a)
    pub setup : SameSetup w w'

  -- No block and no queue changed, and no message in an allocated block.
  pub record Unmoved (w w' : World e) : Type 0 where
    pub held : (b : ℕ) → live w' b ≡ live w b
    pub contents : (a : ℕ) → queued w' a ≡ queued w a
    pub kept :
        (b : ℕ) → (live w b ≡ false) ⊎ (get_msg w' (buffer_of e b) ≡ get_msg w (buffer_of e b))
    pub setup : SameSetup w w'

  -- No block and no queue changed, and no message but the one at `p`.
  pub record Stays (w w' : World e) (p : ℕ) : Type 0 where
    pub held : (b : ℕ) → live w' b ≡ live w b
    pub contents : (a : ℕ) → queued w' a ≡ queued w a
    pub other : (a : ℕ) → get_msg w' a ≡ (if a == p then get_msg w' p else get_msg w a)
    pub setup : SameSetup w w'

  -- Block `b` is new, its buffer holds `m` and stands at the end of the queue at `q`; nothing else
  -- changed in the heap, in a queue or in a message.
  pub record Delivered (w w' : World e) (b q : ℕ) (m : Msg) : Type 0 where
    pub fresh : live w b ≡ false
    pub held : (a : ℕ) → live w' a ≡ (if a == b then true else live w a)
    pub contents :
        (a : ℕ) → queued w' a ≡ (if a == q then queued w q ++ buffer_of e b ∷ [] else queued w a)
    pub stored : (p : ℕ) → get_msg w' p ≡ (if p == buffer_of e b then m else get_msg w p)
    pub setup : SameSetup w w'

  -- Block `b` was freed, and nothing else changed in the heap, in a queue or in a message.
  pub record Released (w w' : World e) (b : ℕ) : Type 0 where
    pub held : (a : ℕ) → live w' a ≡ (if a == b then false else live w a)
    pub contents : (a : ℕ) → queued w' a ≡ queued w a
    pub other :
        (p : ℕ)
        → get_msg w' p ≡ (if p == buffer_of e b then get_msg w' (buffer_of e b) else get_msg w p)
    pub setup : SameSetup w w'

  pub stay : (w : World e) → Unmoved w w
  stay w = record {
    held = λ b. refl;
    contents = λ a. refl;
    kept = λ b. inr refl;
    setup = (refl, refl);
  }
