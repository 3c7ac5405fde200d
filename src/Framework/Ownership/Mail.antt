-- ===== src/Framework/Ownership/Mail.antt =====
-- The mailboxes: what the queues hold, as lists of messages. It is the abstract view of the state, in
-- which a sender appends a message to one mailbox.
use zephyr_project.Framework.Deliveries.{Deliveries, next, quiet, sent}
use zephyr_project.Framework.Effect.{
  Delivered, Unmoved, buffer_of, buffers, live, queued, buffer_of-ne,
}
use zephyr_project.Framework.Ownership.{Deliveries-Owned, Owned, Owner, count, free_count}
use zephyr_project.Framework.Types.{Msg}
use zephyr_project.Framework.World.{Env, World, get_msg}
use zephyr_project.Prelude.{
  List, [], ap, arith, false, if◌then◌else◌, inl, inr, refl, ℕ, ◌++◌, ◌==◌, ◌∷◌, ◌∷◌, ◌≡◌, ◌⊎◌,
  ==_refl, Bool-cases, ◌∙◌, append-nil, append_assoc, sym,
}

cons_eq : {m m' : Msg} {ms ms' : List Msg} → m ≡ m' → ms ≡ ms' → m ∷ ms ≡ m' ∷ ms'
cons_eq x y = cc

-- The mailboxes `v` are `u` with messages appended, one after another.
pub data Appended : (ℕ → List Msg) → (ℕ → List Msg) → Type 0 where
  unchanged : {u v : ℕ → List Msg} → ((a : ℕ) → v a ≡ u a) → Appended u v
  posted :
      {u v : ℕ → List Msg} (q : ℕ) (m : Msg)
      → ((a : ℕ) → v a ≡ (if a == q then u q ++ m ∷ [] else u a))
      → Appended u v
  then_more : {u t v : ℕ → List Msg} → Appended u t → Appended t v → Appended u v

-- Appending leaves each mailbox with what it had in front.
pub Appended-suffix :
    {u v : ℕ → List Msg} → Appended u v → (q : ℕ) → (added : List Msg) × (v q ≡ u q ++ added)
Appended-suffix {u} {v} (unchanged same) q = ([], same q ∙ sym (append-nil (u q)))
Appended-suffix {u} {v} (posted a m h) q = elim (Bool-cases (q == a)) [
  | inl here ↦ (m ∷ [], ground (arith, h q))
  | inr away ↦ ([], h q ∙ rw away (sym (append-nil (u q))))
]
Appended-suffix {u} {v} (then_more {t = t} g h) q =
    let (x, e) = Appended-suffix g q in
    let (y, e') = Appended-suffix h q in (x ++ y, e' ∙ rw e (append_assoc (u q) x y))

module _ {e : Env} where
  -- The messages in the buffers of a list of addresses.
  abbrev pub messages : World e → List ℕ → List Msg
  messages w [] = []
  messages w (p ∷ ps) = get_msg w p ∷ messages w ps

  abbrev pub mail : World e → ℕ → List Msg
  mail w q = messages w (queued w q)

  pub messages-append :
      (w : World e) (ps rs : List ℕ) → messages w (ps ++ rs) ≡ messages w ps ++ messages w rs
  messages-append w [] rs = refl
  messages-append w (p ∷ ps) rs = ap (◌∷◌ (get_msg w p)) (messages-append w ps rs)

  pub messages-kept :
      (w w' : World e) (bs : List ℕ)
      → ((b : ℕ) → (count b bs ≡ 0) ⊎ (get_msg w' (buffer_of e b) ≡ get_msg w (buffer_of e b)))
      → messages w' (buffers e bs) ≡ messages w (buffers e bs)
  messages-kept w w' [] h = refl
  messages-kept w w' (b ∷ bs) h =
      cons_eq (elim (h b) [ inl absent ↦ absurd (ground arith) | inr same ↦ same ])
        (messages-kept w w' bs
          (λ c. elim (h c) [ inl absent ↦ inl (ground arith) | inr same ↦ inr same ]))

  module _ {box : ℕ → List ℕ} {owner : ℕ → Owner} where
    -- Where no queued buffer changes, neither does the mail in a queue.
    pub mail-kept :
        (w w' : World e) (q : ℕ)
        → Owned w box owner
        → ((b : ℕ) → (live w b ≡ false) ⊎ (get_msg w' (buffer_of e b) ≡ get_msg w (buffer_of e b)))
        → messages w' (queued w q) ≡ mail w q
    mail-kept w w' q o h = rw (o.named q) (
        messages-kept w w' (box q)
          (λ b. elim (h b) [ inl dead ↦ inl (free_count w b q o dead) | inr same ↦ inr same ]))

    pub Unmoved-mail :
        (w w' : World e) → Owned w box owner → Unmoved w w' → (a : ℕ) → mail w' a ≡ mail w a
    Unmoved-mail w w' o u a = rw (u.contents a) (mail-kept w w' a o u.kept)

    pub Delivered-mail :
        (w w' : World e) (b q : ℕ) (m : Msg)
        → Owned w box owner
        → Delivered w w' b q m
        → (a : ℕ) → mail w' a ≡ (if a == q then mail w q ++ m ∷ [] else mail w a)
    Delivered-mail w w' b q m o d a =
        let p = buffer_of e b in
        let kept : (c : ℕ)
            → (live w c ≡ false) ⊎ (get_msg w' (buffer_of e c) ≡ get_msg w (buffer_of e c)) =
          λ c. elim (Bool-cases (c == b)) [
            | inl same ↦ inl (ground (arith, d.fresh))
            | inr differ ↦ inr (d.stored (buffer_of e c) ∙ rw (buffer_of-ne e c b differ) refl)
          ] in
        elim (Bool-cases (a == q)) [
          | inl same ↦
              rw (d.contents a, same)
                (messages-append w' (queued w q) (p ∷ [])
                  ∙ rw (mail-kept w w' q o kept, d.stored p, ==_refl p) refl)
          | inr differ ↦ rw (d.contents a, differ) (mail-kept w w' a o kept)
        ]

  pub Deliveries-Appended :
      {w w' : World e} {box : ℕ → List ℕ} {owner : ℕ → Owner}
      → Owned w box owner
      → Deliveries w w'
      → Appended (mail w) (mail w')
  Deliveries-Appended {w} {w'} o (quiet u) = unchanged (Unmoved-mail w w' o u)
  Deliveries-Appended {w} {w'} o (sent b q m d) = posted q m (Delivered-mail w w' b q m o d)
  Deliveries-Appended o (next {v = v} g h) =
      let (box₁, owner₁, o₁, k₁) = Deliveries-Owned o g in
      then_more (Deliveries-Appended o g) (Deliveries-Appended o₁ h)
