-- ===== src/Framework/Ownership/Passing.antt =====
-- What a receiver does with a message without a callback: the handler runs, and the message is freed.
use Prim.Native.Nat.{bit_and}
use zephyr_project.Framework.Deliveries.{Deliveries-kept}
use zephyr_project.Framework.Effect.{
  SameSetup, buffer_of, buffer_of_ne_zero, buffers, live, Delivered,
}
use zephyr_project.Framework.Ownership.{Deliveries-Owned, holder, is_owned}
use zephyr_project.Framework.Ownership.Mail.{Delivered-mail, mail}
use zephyr_project.Framework.Ownership.Receiving.{OnlySends, PoolIsOwned, free_unless_kept-Released}
use zephyr_project.Framework.Ownership.Refinement.{
  mail-Oldest, popped-Owned, still_holder, Released-mail, popped-mail,
}
use zephyr_project.Framework.Receiver.{
  dispatch_msg, free_unless_kept, msg_receiver, run_msg_callback,
}
use zephyr_project.Framework.Receiver.Dispatch.{msg_receiver-dispatch_msg, popped}
use zephyr_project.Framework.Types.{
  DispatchResult, Msg, dispatch_do_not_free, dispatch_error, dispatch_ok, msg_option_callback,
}
use zephyr_project.Framework.World.{Env, World, get_msg}
use zephyr_project.Prelude.{
  List, Option, [], ap, if◌then◌else◌, refl, some, true, update_self, ℕ, ◌++◌, ◌==◌, ◌∙◌, ◌∷◌, ◌≡◌,
  ◌≢◌, ==_ne,
}

-- From the mailboxes `r` to `u` nothing happened, to `v` a message was posted, and to `t` nothing.
carried :
    {r u v t : ℕ → List Msg} (q' : ℕ) (m' : Msg)
    → ((a : ℕ) → t a ≡ v a)
    → ((a : ℕ) → v a ≡ (if a == q' then u q' ++ m' ∷ [] else u a))
    → ((a : ℕ) → u a ≡ r a)
    → (a : ℕ) → t a ≡ (if a == q' then r q' ++ m' ∷ [] else r a)
carried q' m' after appended before a = after a ∙ appended a ∙ rw (before q', before a) refl

module _ {e : Env} (run_handler : e.Handler → ℕ → ℕ → World e → DispatchResult × World e)
    (run_callback : ℕ → ℕ → World e → World e) where
  -- From `w` to `w'` the handler `h` ran on a state that differs from `w` in the queue at `q`, which has
  -- only the messages `ms` left, and found `m`. What the application keeps and what is in the mailboxes
  -- afterwards is what the handler made of it.
  pub record Ran (h : e.Handler) (p_rxer : ℕ) (w w' : World e) (m : Msg) (q : ℕ) (ms : List Msg)
      : Type 0 where
    pub block : ℕ
    pub before : World e
    pub same_app : before.app ≡ w.app
    pub same_setup : SameSetup w before
    pub same_pool : before.pool ≡ w.pool
    pub other_queues : (a : ℕ) → a ≢ q → before.queue a ≡ w.queue a
    pub message : get_msg before (buffer_of e block) ≡ m
    pub app : w'.app ≡ (run_handler h p_rxer (buffer_of e block) before).1.app
    pub mail_after :
        (b q' : ℕ) (m' : Msg)
        → Delivered before (run_handler h p_rxer (buffer_of e block) before).1 b q' m'
        → let rest : ℕ → List Msg = λ a. if a == q then ms else mail w a in
          (a : ℕ) → mail w' a ≡ (if a == q' then rest q' ++ m' ∷ [] else rest a)

  free_unless_kept-app :
      (p : ℕ) (r : DispatchResult × World e)
      → (free_unless_kept run_handler run_callback p r).app ≡ r.1.app
  unfolding free_unless_kept
  free_unless_kept-app p (dispatch_ok, w) = refl
  free_unless_kept-app p (dispatch_error, w) = refl
  free_unless_kept-app p (dispatch_do_not_free, w) = refl

  run_msg_callback-none :
      (p : ℕ) (w : World e)
      → (bit_and (get_msg w p).header.options msg_option_callback == 0) ≡ true
      → run_msg_callback run_handler run_callback p w ≡ w
  unfolding run_msg_callback
  run_msg_callback-none p w plain = rw plain refl

  module _ (sends : OnlySends run_handler run_callback) (p_rxer : ℕ) (w : World e)
      (dispatch : ℕ → Option e.Handler) (h : e.Handler) (m : Msg) (ms : List Msg)
      (some_rxer : p_rxer ≢ 0) (some_queue : (w.recv p_rxer).p_queue ≢ 0)
      (dispatcher : (w.recv p_rxer).p_msg_dispatcher ≡ some dispatch) (pool : PoolIsOwned w)
      (first : mail w (w.recv p_rxer).p_queue ≡ m ∷ ms)
      (known : dispatch m.header.msg_code ≡ some h)
      (plain : (bit_and m.header.options msg_option_callback == 0) ≡ true) where
    pub msg_receiver-Ran :
        Ran h p_rxer w (msg_receiver run_handler run_callback p_rxer w) m (w.recv p_rxer).p_queue ms
    unfolding dispatch_msg
    msg_receiver-Ran =
        let q = (w.recv p_rxer).p_queue in
        let t = (w.recv p_rxer).rx_block_ticks in
        let f = mail-Oldest run_handler run_callback q m ms (pool.box q) pool.owned first refl in
        let b = f.block in
        let w₁ = popped run_handler run_callback w q t in
        let o₁ = popped-Owned run_handler run_callback b q f.behind t pool.owned f.is_box in
        let ran = run_handler h p_rxer (buffer_of e b) w₁ in
        let d = sends.handler h p_rxer (buffer_of e b) w₁ in
        let (box₂, owner₂, o₂, k) = Deliveries-Owned o₁ d in
        let mine =
          still_holder run_handler run_callback owner₂ b o₁ (update_self pool.owner b holder)
            (k b) in
        let alive : live w₁ b ≡ true = o₁.alive b ∙ ap is_owned (update_self pool.owner b holder) in
        let same : get_msg ran.1 (buffer_of e b) ≡ m = (Deliveries-kept d b alive).1 ∙ f.is_msg in
        let skip : run_msg_callback run_handler run_callback (buffer_of e b) ran.1 ≡ ran.1 =
          run_msg_callback-none (buffer_of e b) ran.1 (rw same plain) in
        let run =
          msg_receiver-dispatch_msg run_handler run_callback p_rxer (buffer_of e b) w
            (buffers e f.behind) dispatch some_rxer some_queue (buffer_of_ne_zero e b) f.is_head
            dispatcher in
        let freed =
          free_unless_kept-Released run_handler run_callback sends ran.0 b ran.1
            (sends.frees h p_rxer (buffer_of e b) w₁) in
        let handled : dispatch_msg run_handler run_callback (dispatch m.header.msg_code) p_rxer
              (buffer_of e b) w₁
            ≡ free_unless_kept run_handler run_callback (buffer_of e b) ran =
          rw (known, skip) refl in
        let asked : dispatch (get_msg w (buffer_of e b)).header.msg_code
            ≡ dispatch m.header.msg_code =
          ap (λ (x : Msg). dispatch x.header.msg_code) f.is_msg in
        rw (run.0, asked, handled)
          (record {
            block = b;
            before = w₁;
            same_app = refl;
            same_setup = (refl, refl);
            same_pool = refl;
            other_queues = λ a ne. rw (==_ne a q ne) refl;
            message = f.is_msg;
            app = free_unless_kept-app (buffer_of e b) ran;
            mail_after = λ c q' m' created.
                carried q' m' (Released-mail run_handler run_callback b o₂ mine freed)
                  (Delivered-mail w₁ ran.1 c q' m' o₁ created)
                  (popped-mail run_handler run_callback q m ms t pool.owned f);
          })
