-- ===== src/Framework/Ownership.antt =====
-- Who owns a buffer: every allocated block is in exactly one queue, or a task holds it while it
-- handles the message.
pub mod Mail
pub mod Receiving
pub mod Refinement
pub mod Passing
pub mod Moves
use zephyr_project.Framework.Deliveries.{Deliveries, next, quiet, sent}
use zephyr_project.Framework.Effect.{Delivered, Released, Unmoved, buffer_of, buffers, live, queued}
use zephyr_project.Framework.Types.{Msg}
use zephyr_project.Framework.World.{Env, World}
use zephyr_project.Prelude.{
  Bool, Bool-cases, List, [], ap, arith, false, if◌then◌else◌, inl, inr, refl, suc, sym, true,
  update, ℕ, ◌++◌, ◌+◌, ◌==◌, ◌∙◌, ◌∷◌, ◌∷◌, ◌≡◌, ◌⊎◌,
}

pub data Owner : Type 0 where
  nobody holder : Owner
  in_queue : ℕ → Owner

abbrev pub is_owned : Owner → Bool
is_owned nobody = false
is_owned _ = true

abbrev pub is_holder : Owner → Bool
is_holder holder = true
is_holder _ = false

abbrev pub owns : ℕ → Owner → Bool
owns q (in_queue a) = a == q
owns q _ = false

abbrev pub count : ℕ → List ℕ → ℕ
count b [] = 0
count b (c ∷ cs) = if c == b then suc (count b cs) else count b cs

pub count-append : (b : ℕ) (bs cs : List ℕ) → count b (bs ++ cs) ≡ count b bs + count b cs
count-append b [] cs = omega arith
count-append b (c ∷ bs) cs = ground (arith, count-append b bs cs)

pub buffers-append :
    (e : Env) (bs cs : List ℕ) → buffers e (bs ++ cs) ≡ buffers e bs ++ buffers e cs
buffers-append e [] cs = refl
buffers-append e (b ∷ bs) cs = ap (◌∷◌ (buffer_of e b)) (buffers-append e bs cs)

unowned : (q : ℕ) (o : Owner) → is_owned o ≡ false → owns q o ≡ false
unowned q nobody h = refl
unowned q holder h = cc
unowned q (in_queue a) h = cc

module _ {e : Env} where
  -- `box q` has the blocks whose buffers stand in the queue at `q`. A block is allocated exactly when
  -- it has an owner, and stands once in the queue that owns it and in no other.
  pub record Owned (w : World e) (box : ℕ → List ℕ) (owner : ℕ → Owner) : Type 0 where
    pub named : (q : ℕ) → queued w q ≡ buffers e (box q)
    pub alive : (b : ℕ) → live w b ≡ is_owned (owner b)
    pub counted : (b q : ℕ) → count b (box q) ≡ (if owns q (owner b) then 1 else 0)

  pub free_count :
      {box : ℕ → List ℕ} {owner : ℕ → Owner} (w : World e) (b q : ℕ)
      → Owned w box owner
      → live w b ≡ false
      → count b (box q) ≡ 0
  free_count {box} {owner} w b q o dead =
      let none_own = unowned q (owner b) (sym (o.alive b) ∙ dead) in
      o.counted b q ∙ rw none_own refl

  Unmoved-Owned :
      {w w' : World e} {box : ℕ → List ℕ} {owner : ℕ → Owner}
      → Owned w box owner
      → Unmoved w w'
      → Owned w' box owner
  Unmoved-Owned o u = record {
    named = λ q. u.contents q ∙ o.named q;
    alive = λ b. u.held b ∙ o.alive b;
    counted = o.counted;
  }

  Delivered-Owned :
      {w w' : World e} {box : ℕ → List ℕ} {owner : ℕ → Owner} (b q : ℕ) (m : Msg)
      → Owned w box owner
      → Delivered w w' b q m
      → Owned w' (update box q (box q ++ b ∷ [])) (update owner b (in_queue q))
  Delivered-Owned {w} {w'} {box} {owner} b q m o d = record {
    named =
        λ a. ground (arith, d.contents a, o.named a, o.named q, buffers-append e (box q) (b ∷ []));
    alive = λ a. ground (arith, d.held a, o.alive a);
    counted = λ a q'. ground (
      arith,
      o.counted a q',
      o.counted a q,
      free_count w b q' o d.fresh,
      free_count w b q o d.fresh,
      count-append a (box q) (b ∷ []),
    );
  }

  -- After messages were created a block has the owner that it had, or is new and in a queue.
  pub Deliveries-Owned :
      {u w : World e} {box : ℕ → List ℕ} {owner : ℕ → Owner}
      → Owned u box owner
      → Deliveries u w
      → (box' : ℕ → List ℕ) × (owner' : ℕ → Owner) × Owned w box' owner'
        × ((b : ℕ) → ((live u b ≡ false) × (is_holder (owner' b) ≡ false)) ⊎ (owner' b ≡ owner b))
  Deliveries-Owned {box} {owner} o (quiet x) = (box, owner, Unmoved-Owned o x, λ b. inr refl)
  Deliveries-Owned {u} {w} {box} {owner} o (sent b q m d) = (
    update box q (box q ++ b ∷ []),
    update owner b (in_queue q),
    Delivered-Owned b q m o d,
    λ a. elim (Bool-cases (a == b)) [
      | inl same ↦ inl (ground (arith, d.fresh), rw same refl)
      | inr differ ↦ inr (rw differ refl)
    ],
  )
  Deliveries-Owned o (next g h) =
      let (box₁, owner₁, o₁, k₁) = Deliveries-Owned o g in
      let (box₂, owner₂, o₂, k₂) = Deliveries-Owned o₁ h in
      (
        box₂,
        owner₂,
        o₂,
        λ b. elim (k₁ b) [
          | inl (dead, rest) ↦ elim (k₂ b) [
            | inl (dead', rest') ↦ inl (dead, rest')
            | inr same' ↦ inl (dead, ap is_holder same' ∙ rest)
          ]
          | inr same ↦ elim (k₂ b) [
            | inl (dead, rest) ↦
                inl (o.alive b ∙ ap is_owned (sym same) ∙ sym (o₁.alive b) ∙ dead, rest)
            | inr same' ↦ inr (same' ∙ same)
          ]
        ],
      )

  pub Released-Owned :
      {w w' : World e} {box : ℕ → List ℕ} {owner : ℕ → Owner} (b : ℕ)
      → Owned w box owner
      → owner b ≡ holder
      → Released w w' b
      → Owned w' box (update owner b nobody)
  Released-Owned {w} {w'} {box} {owner} b o mine r = record {
    named = λ q. r.contents q ∙ o.named q;
    alive = λ a. ground (arith, r.held a, o.alive a);
    counted = λ a q. ground (arith, o.counted a q);
  }
