-- ===== src/Framework/Threads/Races.antt =====
-- What the invariant of the threads says of their accesses, and of the pool when they are done.
use Prim.{tt}
use mathlib.Core.Path.{fun_ext}
use zephyr_project.Framework.Broadcast.Conservation.{contains}
use zephyr_project.Framework.Effect.{buffer_of, buffer_of-ne, buffers, live, queued}
use zephyr_project.Framework.Ownership.{count, is_owned}
use zephyr_project.Framework.Ownership.Receiving.{PoolIsOwned}
use zephyr_project.Framework.Threads.{
  call_timer, done, free_buffer, get_from, on_app, put_msg, read_msg, take_buffer, write_msg, Now,
  calling, counting, noting, releasing,
}
use zephyr_project.Framework.Threads.Holding.{hands, in_hand}
use zephyr_project.Framework.Threads.Interleaving.{Inv, Threads}
use zephyr_project.Framework.Threads.Safety.{Holds, nothing, SafeNow}
use zephyr_project.Framework.World.{Env}
use zephyr_project.Prelude.{
  ==_iff, Bool, Bool-cases, List, Option, [], ap, arith, false, inl, inr, none, refl, some, sym,
  true, ℕ, ◌==◌, ◌∙◌, ◌∷◌, ◌≡◌, ◌≡◌, ◌≢◌, if◌then◌else◌,
}
use zephyr_project.Framework.BufferPool.Heap.{bph_size_pos}

-- The buffer that the next step of a thread reads, writes, queues or frees. The statistics write into
-- the header before the buffer.
abbrev pub touched : {e : Env} → Now e → Option ℕ
touched (calling (read_msg p k)) = some p
touched (calling (write_msg p m k)) = some p
touched (calling (put_msg q p t k)) = some p
touched (calling (free_buffer p k)) = some p
touched (counting t n p c) = if p == 0 then none else some p
touched (releasing p c) = some p
touched _ = none

contains-buffers :
    (e : Env) (b : ℕ) (bs : List ℕ)
    → count b bs ≡ 0
    → contains (buffer_of e b) (buffers e bs) ≡ false
contains-buffers e b [] h = refl
contains-buffers e b (c ∷ cs) h = elim (Bool-cases (c == b)) [
  | inl same ↦ absurd (ground arith)
  | inr differ ↦ rw (buffer_of-ne e c b differ) (contains-buffers e b cs (ground arith))
]

same_address : {p q : ℕ} → ◌≡◌ {A = Option ℕ} (some p) (some q) → p ≡ q
same_address e = cc

pub block_of_buffer : (e : Env) (b c : ℕ) → buffer_of e b ≡ buffer_of e c → b ≡ c
block_of_buffer e b c h = omega arith

module _ {e : Env} where
  -- What a safe thread touches next is a buffer that it holds.
  touched-held :
      {held : ℕ → Bool} {q : ℕ} (c : Now e) → SafeNow held c → touched c ≡ some q → Holds e held q
  touched-held (calling (done a)) safe h = cc
  touched-held (calling (take_buffer t n k)) safe h = cc
  touched-held (calling (read_msg p k)) ((b, is_p, mine), rest) h =
      (b, sym (same_address h) ∙ is_p, mine)
  touched-held (calling (write_msg p m k)) ((b, is_p, mine), rest) h =
      (b, sym (same_address h) ∙ is_p, mine)
  touched-held (calling (put_msg q' p t k)) (b, is_p, mine, accepted, full) h =
      (b, sym (same_address h) ∙ is_p, mine)
  touched-held (calling (get_from q' t k)) safe h = cc
  touched-held (calling (free_buffer p k)) (b, is_p, mine, rest) h =
      (b, sym (same_address h) ∙ is_p, mine)
  touched-held (calling (call_timer c k)) safe h = cc
  touched-held (calling (on_app g k)) safe h = cc
  touched-held (counting t n p c) (small, inl null, rest) h = absurd (ground (arith, null, h))
  touched-held (counting t n p c) (small, inr (b, is_p, mine), rest) h =
      (b, ground (arith, h, is_p, bph_size_pos e.platform.config b), mine)
  touched-held (noting p c) safe h = cc
  touched-held (releasing p c) (b, is_p, mine, rest) h = (b, sym (same_address h) ∙ is_p, mine)

  -- The buffer at `p` is allocated, stands in no queue, and is touched by no other thread next.
  pub record Alone (s : Threads e) (i p : ℕ) : Type 0 where
    pub block : ℕ
    pub is_buffer : p ≡ buffer_of e block
    pub allocated : live s.world block ≡ true
    pub unqueued : (q : ℕ) → contains p (queued s.world q) ≡ false
    pub unshared : (j : ℕ) → j ≢ i → touched (s.prog j) ≢ some p

  -- Under the invariant, what a thread touches next it has for itself.
  pub Inv-Alone : {s : Threads e} (i p : ℕ) → Inv s → touched (s.prog i) ≡ some p → Alone s i p
  Inv-Alone {s} i p v h =
      let (b, is_p, mine) = touched-held (s.prog i) (v.safe i) h in
      let (held, by_i) = in_hand (v.owner b) (v.agent b == i) mine in
      record {
        block = b;
        is_buffer = is_p;
        allocated = v.owned.alive b ∙ ap is_owned held;
        unqueued = λ q.
            rw (is_p, v.owned.named q)
              (contains-buffers e b (v.box q) (v.owned.counted b q ∙ rw held refl));
        unshared = λ j other theirs.
            let (c, is_p', mine') = touched-held (s.prog j) (v.safe j) theirs in
            let same : b ≡ c = block_of_buffer e b c (sym is_p ∙ is_p') in
            let (held', by_j) = in_hand (v.owner c) (v.agent c == j) mine' in
            other (
              sym ((==_iff (v.agent c) j).0 by_j)
              ∙ ap v.agent (sym same)
              ∙ (==_iff (v.agent b) i).0 by_i);
      }

  -- When every thread is done, each allocated block stands in exactly one queue.
  pub Inv-PoolIsOwned :
      {s : Threads e} → Inv s → ((i : ℕ) → s.prog i ≡ calling (done tt)) → PoolIsOwned s.world
  Inv-PoolIsOwned {s} v ended = record {
    box = v.box;
    owner = v.owner;
    owned = v.owned;
    at_rest = λ b.
        let none_held : hands v.owner v.agent (v.agent b) ≡ nothing =
          rw (ended (v.agent b)) at (v.safe (v.agent b)) in
        let h : hands v.owner v.agent (v.agent b) b ≡ false =
          ap (λ (f : ℕ → Bool). f b) none_held in
        ground (arith, h);
  }

  -- The start: no thread runs, and each allocated block stands in exactly one queue.
  pub at_rest-Inv :
      (s : Threads e) → PoolIsOwned s.world → ((i : ℕ) → s.prog i ≡ calling (done tt)) → Inv s
  at_rest-Inv s pool ended = record {
    box = pool.box;
    owner = pool.owner;
    agent = λ b. 0;
    owned = pool.owned;
    safe = λ i. rw (ended i) (fun_ext (λ b. ground (arith, pool.at_rest b)));
  }
