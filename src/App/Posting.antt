-- ===== src/App/Posting.antt =====
-- An event message: take a buffer, fill it in, SYSMSG_SEND. sensor_task.c and event_task.c both do it.
use zephyr_project.Framework.BufferPool.{buffer_pool_take, zeroed, bph_size}
use zephyr_project.Framework.BufferPool.Heap.{bph_size_pos, buffer_pool_take-Takes, Taken}
use zephyr_project.Framework.Effect.{buffer_of, Delivered, buffer_of_ne_zero}
use zephyr_project.Framework.SysCore.NewBuffer.{
  new_buffer-Creates, Creates-Posts, Posts, Creates, take_fails-Unmoved, take_succeeds-Filled,
}
use zephyr_project.Framework.SysCore.Sending.{msg_send-SendsAs, queue_at}
use zephyr_project.Framework.SysMsg.{deallocate_on_error, sysmsg_send}
use zephyr_project.Framework.Types.{Msg, msg_option_none, smc_invalid}
use zephyr_project.Framework.World.{Env, World, get_msg, set_msg, set_pool}
use zephyr_project.Prelude.{
  ap, arith, if◌then◌else◌, inl, inr, refl, update_self, ℕ, ◌==◌, ◌∙◌, ◌≡◌, ==_refl, ◌+◌, List,
  if_elim, ◌≢◌, true,
}
use Prim.Native.Char.{code}
use zephyr_project.App.State.{AppState, app_env, set_app, Output, emit}
use zephyr_project.Config.SysCfg.{Nvs}
use zephyr_project.Platform.{Platform}
use zephyr_project.Framework.SysCore.{msg_send}
use zephyr_project.Framework.SysMsg.Aside.{msg_send-app}
use zephyr_project.Prelude.Int.{is_zero, ℤ}
use zephyr_project.Framework.SysMsg.Progress.{Accepts, msg_send_succeeds}

abbrev pub sensor_event_water_flow : ℕ
sensor_event_water_flow = 10

abbrev pub event_message : ℕ → ℕ → ℕ → List ℕ → Msg
event_message code rx tx words = record {
  header = record { msg_code = code; rx_id = rx; tx_id = tx; options = msg_option_none };
  payload = words;
}

module _ {e : Env} where
  -- `fill` is what is written over the zeroed buffer of `size` bytes.
  unfoldable pub take_fill_send : ℕ → (Msg → Msg) → World e → World e
  take_fill_send size fill w =
      let taken = buffer_pool_take e.platform size w.pool in
      let w' = set_pool taken.1 w in
      if taken.0 == 0
      then w'
      else (sysmsg_send taken.0 (set_msg taken.0 (fill (get_msg w' taken.0)) w')).1

  -- The new buffer is filled in and sent.
  filled-Creates :
      (size : ℕ) (fill : Msg → Msg) (w : World e) (b : ℕ)
      → let taken = buffer_pool_take e.platform size w.pool in
        Taken size b w.pool taken.1
        → let w' = set_pool taken.1 w in
          let m = fill (zeroed size) in
          Creates w (queue_at w m.header.rx_id) m (
            sysmsg_send
              (buffer_of e b)
              (set_msg (buffer_of e b) (fill (get_msg w' (buffer_of e b))) w'))
  unfolding sysmsg_send deallocate_on_error
  filled-Creates size fill w b x =
      let taken = buffer_pool_take e.platform size w.pool in
      let w' = set_pool taken.1 w in
      let zeros : get_msg w' (buffer_of e b) ≡ zeroed size =
        ap (λ (f : ℕ → Msg). f (buffer_of e b)) x.written
        ∙ update_self w.pool.mem (buffer_of e b) (zeroed size) in
      let w₁ = set_msg (buffer_of e b) (fill (zeroed size)) w' in
      let m = fill (zeroed size) in
      rw (zeros, ==_refl (b + bph_size e.platform.config))
        (new_buffer-Creates w w₁ b (queue_at w m.header.rx_id) m.header.rx_id m _
          (take_succeeds-Filled _ b w _ w₁.pool.mem x (λ a. ground arith)) (ground arith)
          (msg_send-SendsAs m.header.rx_id (buffer_of e b) w₁))

  pub take_fill_send-Posts :
      (size : ℕ) (fill : Msg → Msg) (w : World e)
      → Posts w
          (queue_at w (fill (zeroed size)).header.rx_id)
          (fill (zeroed size))
          (take_fill_send size fill w)
  unfolding take_fill_send
  take_fill_send-Posts size fill w =
      let taken = buffer_pool_take e.platform size w.pool in
      elim (buffer_pool_take-Takes size w.pool) [
        | inl (z, x) ↦ rw z (inr (take_fails-Unmoved w _ x))
        | inr (b, z, x) ↦
            rw (z, bph_size_pos e.platform.config b)
              (Creates-Posts w _ (fill (zeroed size)) _ (filled-Creates size fill w b x))
      ]

  filled_status :
      (size : ℕ) (fill : Msg → Msg) (w : World e) (b : ℕ)
      → let taken = buffer_pool_take e.platform size w.pool in
        Taken size b w.pool taken.1
        → Accepts w (fill (zeroed size)).header.rx_id
        → (fill (zeroed size)).header.msg_code ≢ smc_invalid
        → let w' = set_pool taken.1 w in
          is_zero
            (sysmsg_send
              (buffer_of e b)
              (set_msg (buffer_of e b) (fill (get_msg w' (buffer_of e b))) w')).0
          ≡ true
  unfolding sysmsg_send deallocate_on_error
  filled_status size fill w b x a valid =
      let taken = buffer_pool_take e.platform size w.pool in
      let w' = set_pool taken.1 w in
      let zeros : get_msg w' (buffer_of e b) ≡ zeroed size =
        ap (λ (f : ℕ → Msg). f (buffer_of e b)) x.written
        ∙ update_self w.pool.mem (buffer_of e b) (zeroed size) in
      let m = fill (zeroed size) in
      let w₁ = set_msg (buffer_of e b) m w' in
      let accepts : Accepts w₁ m.header.rx_id = record {
        below = a.below;
        used = a.used;
        some_recv = a.some_recv;
        some_queue = a.some_queue;
        room = a.room;
      } in
      let valid' : (get_msg w₁ (buffer_of e b)).header.msg_code ≢ smc_invalid =
        rw (==_refl (buffer_of e b)) valid in
      let sent =
        msg_send_succeeds m.header.rx_id (buffer_of e b) w₁ accepts (buffer_of_ne_zero e b)
          valid' in
      rw (zeros, ==_refl (b + bph_size e.platform.config), sent) sent

  -- With a buffer in the pool and room in the receiver's queue, the message is there for certain.
  pub take_fill_send-Delivered :
      (size : ℕ) (fill : Msg → Msg) (w : World e)
      → Accepts w (fill (zeroed size)).header.rx_id
      → (fill (zeroed size)).header.msg_code ≢ smc_invalid
      → (buffer_pool_take e.platform size w.pool).0 ≢ 0
      → (b : ℕ) × Delivered w
          (take_fill_send size fill w)
          b
          (queue_at w (fill (zeroed size)).header.rx_id)
          (fill (zeroed size))
  unfolding take_fill_send
  take_fill_send-Delivered size fill w a valid some_buffer =
      elim (buffer_pool_take-Takes size w.pool) [
        | inl (z, x) ↦ absurd (some_buffer z)
        | inr (b, z, x) ↦
            let status = filled_status size fill w b x a valid in
            rw (z, bph_size_pos e.platform.config b)
              (elim (filled-Creates size fill w b x) [ inl (z', d) ↦ d | inr (z', u) ↦ cc ])
      ]

module _ {e : Env} where
  pub take_fill_send-app :
      (size : ℕ) (fill : Msg → Msg) (w : World e) → (take_fill_send size fill w).app ≡ w.app
  unfolding take_fill_send sysmsg_send deallocate_on_error
  take_fill_send-app size fill w =
      let taken = buffer_pool_take e.platform size w.pool in
      let w' = set_pool taken.1 w in
      let w₁ = set_msg taken.0 (fill (get_msg w' taken.0)) w' in
      let id = (get_msg w₁ taken.0).header.rx_id in
      let same : (msg_send id taken.0 w₁).1.app ≡ w.app = msg_send-app id taken.0 w₁ in
      if_elim (λ (v : World e). v.app ≡ w.app) (taken.0 == 0) (λ _. refl)
        (λ _.
          if_elim (λ (r : ℤ × World e). r.1.app ≡ w.app) (is_zero (msg_send id taken.0 w₁).0)
            (λ _. same) (λ _. same))

module _ {p : Platform} {n : Nvs} where
  -- The application's own state is no part of what is posted.
  pub set_app-Delivered :
      (a : AppState n) (w w' : World (app_env p n)) (b q : ℕ) (m : Msg)
      → Delivered (set_app a w) w' b q m
      → Delivered w w' b q m
  set_app-Delivered a w w' b q m d = record {
    fresh = d.fresh;
    held = d.held;
    contents = d.contents;
    stored = d.stored;
    setup = d.setup;
  }

  pub emit-Delivered :
      (o : Output) (w w' : World (app_env p n)) (b q : ℕ) (m : Msg)
      → Delivered w w' b q m
      → Delivered w (emit o w') b q m
  emit-Delivered o w w' b q m d = record {
    fresh = d.fresh;
    held = d.held;
    contents = d.contents;
    stored = d.stored;
    setup = d.setup;
  }

  pub set_app-Posts :
      (a : AppState n) (w w' : World (app_env p n)) (q : ℕ) (m : Msg)
      → Posts (set_app a w) q m w'
      → Posts w q m w'
  set_app-Posts a w w' q m (inl (b, d)) = inl (b, set_app-Delivered a w w' b q m d)
  set_app-Posts a w w' q m (inr u) =
      inr (record { held = u.held; contents = u.contents; kept = u.kept; setup = u.setup })

  pub emit-Posts :
      (o : Output) (w w' : World (app_env p n)) (q : ℕ) (m : Msg)
      → Posts w q m w'
      → Posts w q m (emit o w')
  emit-Posts o w w' q m (inl (b, d)) = inl (b, emit-Delivered o w w' b q m d)
  emit-Posts o w w' q m (inr u) =
      inr (record { held = u.held; contents = u.contents; kept = u.kept; setup = u.setup })
