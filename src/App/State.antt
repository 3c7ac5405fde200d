-- ===== src/App/State.antt =====
-- The application's own state (the static variables of app/src: control_task.c, event_task.c,
-- bsp.c), its handlers by name, and what leaves the program.
use zephyr_project.Config.SysCfg.{Nvs}
use zephyr_project.Framework.World.{Env, World}
use zephyr_project.Platform.{Platform}
use zephyr_project.Prelude.{Bool, List, ℕ, ◌∷◌}

pub data Handler : Type 0 where
  sys_unknown heart_beat sw_reset factory_reset join_lorawan sensor_event send_data_lorawan :
      Handler
  sensor_check value_changed sensor_measure event_msg : Handler

-- What leaves the program: the relay pin toggled, a frame handed to the radio, the sensor interval
-- timer or the power timer started with its seconds.
pub data Output : Type 0 where
  relay_toggled : Output
  lorawan_sent : List ℕ → Output
  interval_started power_interval_started : ℕ → Output

pub record AppState (n : Nvs) : Type 0 where
  pub store : n.Store
  pub dev_nonce : ℕ
  pub b_send_msg_lorawan : Bool
  pub tx_data : List ℕ
  pub b_factory_reset : Bool
  pub b_task_started : Bool
  pub event_task_event_id : ℕ
  pub water_flower_count : ℕ
  pub outputs : List Output

-- A platform and a settings store make the environment of the framework.
abbrev pub app_env : Platform → Nvs → Env
app_env p n = record { platform = p; Handler = Handler; App = AppState n }

module _ {p : Platform} {n : Nvs} where
  abbrev pub set_app : AppState n → World (app_env p n) → World (app_env p n)
  set_app a w = record w { app = a }

  abbrev pub emit : Output → World (app_env p n) → World (app_env p n)
  emit o w = record w { app = record (w.app) { outputs = o ∷ w.app.outputs } }
