-- ===== src/Framework/Ownership/Receiving.antt =====
-- The owners of the buffers when a receiver takes a message out of its mailbox.
use zephyr_project.Framework.Deliveries.{Deliveries, quiet, next}
use zephyr_project.Framework.Effect.{Released, buffer_of, stay, live, queued}
use zephyr_project.Framework.Ownership.{Deliveries-Owned, Owned, Owner, is_holder, nobody}
use zephyr_project.Framework.Receiver.{
  dispatch_msg, run_msg_callback, sys_unknown_msg_handler, call_back, free_unless_kept,
}
use zephyr_project.Framework.SysCore.NewBuffer.{free_msg-Released}
use zephyr_project.Framework.Types.{
  DispatchResult, dispatch_do_not_free, dispatch_error, dispatch_ok, msg_option_callback,
}
use zephyr_project.Framework.World.{Env, World, get_msg}
use zephyr_project.Prelude.{
  List, Option, false, none, some, ℕ, ◌≡◌, ◌≢◌, [], if_elim, refl, ◌==◌, ◌∷◌, ap, inl, inr, ◌∙◌,
}
use Prim.Native.Nat.{bit_and}
use zephyr_project.Framework.BufferPool.{Pool}

module _ {e : Env} where
  -- Between two calls no task holds a buffer: each allocated block stands in exactly one queue, once.
  pub record PoolIsOwned (w : World e) : Type 0 where
    pub box : ℕ → List ℕ
    pub owner : ℕ → Owner
    pub owned : Owned w box owner
    pub at_rest : (b : ℕ) → is_holder (owner b) ≡ false

  -- As at the start: nothing is allocated and the queues are empty.
  pub at_start-PoolIsOwned :
      (w : World e) → ((b : ℕ) → live w b ≡ false) → ((q : ℕ) → queued w q ≡ []) → PoolIsOwned w
  at_start-PoolIsOwned w none_live none_queued = record {
    box = λ q. [];
    owner = λ b. nobody;
    owned = record { named = none_queued; alive = none_live; counted = λ b q. refl };
    at_rest = λ b. refl;
  }

  -- Who receives is no part of the ownership.
  pub PoolIsOwned-kept :
      (w w' : World e) → w'.pool ≡ w.pool → w'.queue ≡ w.queue → PoolIsOwned w → PoolIsOwned w'
  PoolIsOwned-kept w w' pool queue i = record {
    box = i.box;
    owner = i.owner;
    owned = record {
      named =
          λ q. ap (λ (f : ℕ → e.platform.Msgq). e.platform.contents (f q)) queue ∙ i.owned.named q;
      alive = λ b. ap (λ (s : Pool e.platform). e.platform.live s.heap b) pool ∙ i.owned.alive b;
      counted = i.owned.counted;
    };
    at_rest = i.at_rest;
  }

  pub Deliveries-PoolIsOwned : {u w : World e} → PoolIsOwned u → Deliveries u w → PoolIsOwned w
  Deliveries-PoolIsOwned {u} {w} i d =
      let (box, owner, o, k) = Deliveries-Owned i.owned d in
      record {
        box = box;
        owner = owner;
        owned = o;
        at_rest = λ b. elim (k b) [
          | inl (dead, rest) ↦ rest
          | inr same ↦ ap is_holder same ∙ i.at_rest b
        ];
      }

  module _ (run_handler : e.Handler → ℕ → ℕ → World e → DispatchResult × World e)
      (run_callback : ℕ → ℕ → World e → World e) where
    -- The handlers and the callbacks only send, and leave the freeing of the message to the receiver.
    pub record OnlySends : Type 0 where
      pub handler : (h : e.Handler) (r p : ℕ) (w : World e) → Deliveries w (run_handler h r p w).1
      pub frees :
          (h : e.Handler) (r p : ℕ) (w : World e) → (run_handler h r p w).0 ≢ dispatch_do_not_free
      pub callback : (cb arg : ℕ) (w : World e) → Deliveries w (run_callback cb arg w)

    module _ (sends : OnlySends) where
      call_back-Deliveries :
          (words : List ℕ) (w : World e) → Deliveries w (call_back run_handler run_callback words w)
      unfolding call_back
      call_back-Deliveries [] w = quiet (stay w)
      call_back-Deliveries (cb ∷ []) w = quiet (stay w)
      call_back-Deliveries (cb ∷ (arg ∷ rest)) w =
          if_elim (Deliveries w) (cb == 0) (λ _. quiet (stay w)) (λ _. sends.callback cb arg w)

      run_msg_callback-Deliveries :
          (p : ℕ) (w : World e) → Deliveries w (run_msg_callback run_handler run_callback p w)
      unfolding run_msg_callback
      run_msg_callback-Deliveries p w =
          if_elim (Deliveries w) (bit_and (get_msg w p).header.options msg_option_callback == 0)
            (λ _. quiet (stay w)) (λ _. call_back-Deliveries (get_msg w p).payload w)

      pub free_unless_kept-Released :
          (res : DispatchResult) (b : ℕ) (w : World e)
          → res ≢ dispatch_do_not_free
          → Released w (free_unless_kept run_handler run_callback (buffer_of e b) (res, w)) b
      unfolding free_unless_kept
      free_unless_kept-Released dispatch_ok b w h = free_msg-Released b w
      free_unless_kept-Released dispatch_error b w h = free_msg-Released b w
      free_unless_kept-Released dispatch_do_not_free b w h = absurd (h refl)

      -- The message is handled, and then freed.
      pub dispatch_msg-Released :
          (o : Option e.Handler) (r b : ℕ) (w : World e)
          → (w₁ : World e) × Deliveries w w₁
            × Released w₁ (dispatch_msg run_handler run_callback o r (buffer_of e b) w) b
      unfolding dispatch_msg sys_unknown_msg_handler
      dispatch_msg-Released none r b w = (w, quiet (stay w), free_msg-Released b w)
      dispatch_msg-Released (some h) r b w =
          let p = buffer_of e b in
          let ran = run_handler h r p w in
          (
            run_msg_callback run_handler run_callback p ran.1,
            next (sends.handler h r p w) (run_msg_callback-Deliveries p ran.1),
            free_unless_kept-Released ran.0 b _ (sends.frees h r p w),
          )
