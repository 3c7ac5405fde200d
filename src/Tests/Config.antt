-- ===== src/Tests/Config.antt =====
-- The settings' theorems at a concrete store.
use zephyr_project.Config.Decimal.{snprintf_u}
use zephyr_project.Config.DevNonce.{get_dev_nonce, get_dev_nonce-inc_dev_nonce, inc_dev_nonce}
use zephyr_project.Config.Hash.{dev_nonce_key, get_key_id, seed, water_flow_key}
use zephyr_project.Config.Model.{table}
use zephyr_project.Config.SysCfg.{syscfg_get, syscfg_set}
use zephyr_project.Config.SysCfg.Store.{syscfg_get-set}
use zephyr_project.Prelude.{
  [], arith, if◌then◌else◌, none, refl, replicate, ◌==◌, ◌∷◌, ◌≡◌, ◌≢◌, List, ℕ, some,
}
use zephyr_project.Prelude.Int.{pos}
use Prim.{tt}
use zephyr_project.Config.Shell.{cmd_syscfg_get, cmd_syscfg_get-set, cmd_syscfg_set, got_value}

abbrev empty_store : table.Store
empty_store = λ _. none

wrote_flow : (syscfg_set table water_flow_key (b'4' ∷ b'2' ∷ []) empty_store).0 ≡ pos 0
unfolding syscfg_set
wrote_flow = refl

abbrev forty_two : List ℕ
forty_two = b'4' ∷ b'2' ∷ []

some_value : forty_two ≢ []
some_value e = cc

wrote_nonce : (syscfg_set table dev_nonce_key (snprintf_u 10 0) empty_store).0 ≡ pos 0
unfolding syscfg_set
wrote_nonce = refl

syscfg_get-set_example :
    syscfg_get table water_flow_key
      (replicate 4 0)
      (syscfg_set table water_flow_key (b'4' ∷ b'2' ∷ []) empty_store).1
    ≡ (if get_key_id water_flow_key seed == get_key_id water_flow_key seed
        then (pos 0, b'4' ∷ b'2' ∷ 0 ∷ 0 ∷ [])
        else syscfg_get table water_flow_key (replicate 4 0) empty_store)
syscfg_get-set_example =
    syscfg_get-set table water_flow_key water_flow_key (b'4' ∷ b'2' ∷ []) (replicate 4 0)
      empty_store wrote_flow some_value (omega arith)

get_dev_nonce-inc_dev_nonce_example :
    get_dev_nonce table (inc_dev_nonce table 65_535 empty_store).1 ≡ 0
get_dev_nonce-inc_dev_nonce_example =
    get_dev_nonce-inc_dev_nonce table 65_535 empty_store wrote_nonce

set_k : (syscfg_set table (b'k' ∷ []) (b'1' ∷ b'2' ∷ []) (λ _. none)).0 ≡ pos 0
unfolding syscfg_set
set_k = refl

-- `syscfg set k 12`, and then `syscfg get k`.
cmd_syscfg_get-set_example :
    let s' =
      (cmd_syscfg_set table
        (none ∷ some (b'k' ∷ []) ∷ some (b'1' ∷ b'2' ∷ []) ∷ [])
        (λ _. none)).2 in
    cmd_syscfg_get table (none ∷ some (b'k' ∷ []) ∷ []) s'
    ≡ (pos 0, got_value (b'1' ∷ b'2' ∷ []) (b'k' ∷ []))
unfolding get_key_id
cmd_syscfg_get-set_example =
    cmd_syscfg_get-set table [] [] (b'2' ∷ []) b'k' b'k' b'1' (λ _. none)
      (omega arith, (omega arith, tt)) (omega arith) set_k
