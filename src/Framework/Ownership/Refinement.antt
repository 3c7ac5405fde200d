-- ===== src/Framework/Ownership/Refinement.antt =====
-- `msg_receiver` on the mailboxes.
use zephyr_project.Framework.Effect.{
  Released, buffer_of, buffer_of-ne, buffers, queued, buffer_of_ne_zero, live, SameSetup,
}
use zephyr_project.Framework.Ownership.{
  Owned, Owner, holder, is_owned, nobody, Deliveries-Owned, Released-Owned, is_holder,
}
use zephyr_project.Framework.Ownership.Mail.{
  mail, messages-kept, Appended, messages, Deliveries-Appended, then_more, unchanged,
}
use zephyr_project.Framework.Receiver.Dispatch.{popped, msg_receiver-dispatch_msg}
use zephyr_project.Framework.Types.{DispatchResult, Msg}
use zephyr_project.Framework.World.{Env, World, get_msg}
use zephyr_project.Platform.{Timeout, no_wait}
use zephyr_project.Prelude.{
  Bool-cases, List, arith, false, if◌then◌else◌, inl, inr, refl, true, update, ℕ, ◌==◌, ◌∙◌, ◌∷◌,
  ◌≡◌, Option, [], ap, some, sym, ◌≢◌, update_self, ◌⊎◌,
}
use zephyr_project.Framework.Deliveries.{Deliveries-SameSetup}
use zephyr_project.Framework.Ownership.Receiving.{OnlySends, PoolIsOwned, dispatch_msg-Released}
use zephyr_project.Framework.Receiver.{msg_receiver}
use zephyr_project.Framework.Ownership.Moves.{got-Owned}

module _ {e : Env} (run_handler : e.Handler → ℕ → ℕ → World e → DispatchResult × World e)
    (run_callback : ℕ → ℕ → World e → World e) where
  pub popped-Owned :
      {w : World e} {box : ℕ → List ℕ} {owner : ℕ → Owner} (b q : ℕ) (bs : List ℕ) (t : Timeout)
      → Owned w box owner
      → box q ≡ b ∷ bs
      → Owned (popped run_handler run_callback w q t) (update box q bs) (update owner b holder)
  popped-Owned {w} b q bs t o e' = got-Owned w b q bs (if w.in_isr then no_wait else t) o e'

  pub Released-mail :
      {w w' : World e} {box : ℕ → List ℕ} {owner : ℕ → Owner} (b : ℕ)
      → Owned w box owner
      → owner b ≡ holder
      → Released w w' b
      → (a : ℕ) → mail w' a ≡ mail w a
  Released-mail {w} {w'} {box} {owner} b o mine r a =
      rw (r.contents a, o.named a)
        (messages-kept w w' (box a) (λ c. elim (Bool-cases (c == b)) [
          | inl same ↦ inl (ground (arith, o.counted b a))
          | inr differ ↦ inr (r.other (buffer_of e c) ∙ rw (buffer_of-ne e c b differ) refl)
        ]))

  -- The oldest message's buffer, its block and what is behind it.
  pub record Oldest (w : World e) (box : ℕ → List ℕ) (q : ℕ) (m : Msg) (ms : List Msg)
      : Type 0 where
    pub block : ℕ
    pub behind : List ℕ
    pub is_box : box q ≡ block ∷ behind
    pub is_head : queued w q ≡ buffer_of e block ∷ buffers e behind
    pub is_msg : get_msg w (buffer_of e block) ≡ m
    pub is_rest : messages w (buffers e behind) ≡ ms

  pub mail-Oldest :
      {w : World e} {box : ℕ → List ℕ} {owner : ℕ → Owner} (q : ℕ) (m : Msg) (ms : List Msg)
      (bs : List ℕ)
      → Owned w box owner
      → mail w q ≡ m ∷ ms
      → box q ≡ bs
      → Oldest w box q m ms
  mail-Oldest {w} q m ms [] o first e' =
      let none_queued : queued w q ≡ [] = o.named q ∙ ap (buffers e) e' in
      let shown : messages w [] ≡ m ∷ ms = ap (messages w) (sym none_queued) ∙ first in cc
  mail-Oldest {w} q m ms (b ∷ bs) o first e' =
      let head : queued w q ≡ buffer_of e b ∷ buffers e bs = o.named q ∙ ap (buffers e) e' in
      let shown : get_msg w (buffer_of e b) ∷ messages w (buffers e bs) ≡ m ∷ ms =
        ap (messages w) (sym head) ∙ first in
      record { block = b; behind = bs; is_box = e'; is_head = head; is_msg = cc; is_rest = cc }

  pub still_holder :
      {w₁ : World e} {box : ℕ → List ℕ} {owner : ℕ → Owner} (owner' : ℕ → Owner) (b : ℕ)
      → Owned w₁ box owner
      → owner b ≡ holder
      → ((live w₁ b ≡ false) × (is_holder (owner' b) ≡ false)) ⊎ (owner' b ≡ owner b)
      → owner' b ≡ holder
  still_holder owner' b o mine (inl (dead, rest)) =
      let alive : true ≡ false = sym (o.alive b ∙ ap is_owned mine) ∙ dead in cc
  still_holder owner' b o mine (inr same) = same ∙ mine

  -- Only the freed block changes hands twice.
  rest_after :
      (w₁ : World e) (owner owner' : ℕ → Owner) (b a : ℕ)
      → is_holder (owner a) ≡ false
      → ((live w₁ a ≡ false) × (is_holder (owner' a) ≡ false))
        ⊎ (owner' a ≡ update owner b holder a)
      → is_holder (update owner' b nobody a) ≡ false
  rest_after w₁ owner owner' b a rest k = elim (Bool-cases (a == b)) [
    | inl same ↦ rw same refl
    | inr differ ↦
        rw differ (elim k [ inl (dead, now) ↦ now | inr kept ↦ ap is_holder kept ∙ rw differ rest ])
  ]

  pub popped-mail :
      {w : World e} {box : ℕ → List ℕ} {owner : ℕ → Owner} (q : ℕ) (m : Msg) (ms : List Msg)
      (t : Timeout)
      → Owned w box owner
      → Oldest w box q m ms
      → (a : ℕ) → mail (popped run_handler run_callback w q t) a ≡ (if a == q then ms else mail w a)
  popped-mail {w} {box} q m ms t o f a =
      let w₁ = popped run_handler run_callback w q t in
      let g = e.platform.get_cons (w.queue q) (if w.in_isr then no_wait else t) _ _ f.is_head in
      elim (Bool-cases (a == q)) [
        | inl here ↦ rw (here, g.2) (messages-kept w w₁ f.behind (λ b. inr refl) ∙ f.is_rest)
        | inr away ↦ rw away (rw (o.named a) (messages-kept w w₁ (box a) (λ b. inr refl)))
      ]

  module _ (sends : OnlySends run_handler run_callback) (p_rxer : ℕ) (w : World e)
      (dispatch : ℕ → Option e.Handler) (m : Msg) (ms : List Msg) (some_rxer : p_rxer ≢ 0)
      (some_queue : (w.recv p_rxer).p_queue ≢ 0)
      (dispatcher : (w.recv p_rxer).p_msg_dispatcher ≡ some dispatch) (pool : PoolIsOwned w)
      (first : mail w (w.recv p_rxer).p_queue ≡ m ∷ ms) where
    -- When handlers and callbacks only send and no handler keeps its message, and each allocated block
    -- stands in exactly one queue: `msg_receiver` on a task with a dispatcher whose mailbox is not
    -- empty takes the oldest message out, and on the mailboxes does nothing more than append
    -- messages. Afterwards again every allocated block stands in exactly one queue, once, and the
    -- receivers and the registry are as before.
    pub msg_receiver-Appended :
        let w' = msg_receiver run_handler run_callback p_rxer w in
        Appended (λ a. if a == (w.recv p_rxer).p_queue then ms else mail w a) (mail w')
        × PoolIsOwned w'
        × SameSetup w w'
    msg_receiver-Appended =
        let q = (w.recv p_rxer).p_queue in
        let t = (w.recv p_rxer).rx_block_ticks in
        let f = mail-Oldest q m ms (pool.box q) pool.owned first refl in
        let b = f.block in
        let w₁ = popped run_handler run_callback w q t in
        let o₁ = popped-Owned b q f.behind t pool.owned f.is_box in
        let code = (get_msg w (buffer_of e b)).header.msg_code in
        let some_msg : buffer_of e b ≢ 0 = buffer_of_ne_zero e b in
        let run =
          msg_receiver-dispatch_msg run_handler run_callback p_rxer (buffer_of e b) w
            (buffers e f.behind) dispatch some_rxer some_queue some_msg f.is_head dispatcher in
        let (w₂, sends_more, freed) =
          dispatch_msg-Released run_handler run_callback sends (dispatch code) p_rxer b w₁ in
        let (box₂, owner₂, o₂, k) = Deliveries-Owned o₁ sends_more in
        let mine = still_holder owner₂ b o₁ (update_self pool.owner b holder) (k b) in
        rw run.0 (
          then_more (unchanged (popped-mail q m ms t pool.owned f)) (
              then_more (Deliveries-Appended o₁ sends_more)
                (unchanged (Released-mail b o₂ mine freed))),
          record {
            box = box₂;
            owner = update owner₂ b nobody;
            owned = Released-Owned b o₂ mine freed;
            at_rest = λ a. rest_after w₁ pool.owner owner₂ b a (pool.at_rest a) (k a);
          },
          (
            freed.setup.0 ∙ (Deliveries-SameSetup sends_more).0,
            freed.setup.1 ∙ (Deliveries-SameSetup sends_more).1,
          ),
        )
