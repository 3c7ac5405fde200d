-- ===== src/Config/Shell.antt =====
-- The commands `syscfg get` and `syscfg set` of lib/framework/sys_shell.c. What the shell prints is
-- the line and its arguments.
-- `overread` stands for a "%s" of a buffer without a NUL.
use zephyr_project.Config.Decimal.{HasNoNul}
use zephyr_project.Config.SysCfg.{Nvs, syscfg_get, syscfg_set, copy_over}
use zephyr_project.Prelude.{
  ==_ne, List, Option, [], if◌then◌else◌, none, refl, replicate, some, suc, zero, ℕ, ◌==◌, ◌∷◌, ◌∷◌,
  ◌≡◌, Bool-cases, arith, inl, inr, length, ◌<◌, ap, ◌∙◌,
}
use zephyr_project.Prelude.Int.{negsuc, pos, ℤ}
use zephyr_project.Config.Hash.{get_key_id, seed}
use zephyr_project.Config.SysCfg.Store.{syscfg_get-set}

pub data ShellLine : Type 0 where
  missing_key missing_value overread : ShellLine
  got_value set_value : List ℕ → List ℕ → ShellLine

-- `argv[i]`, NULL behind the arguments.
unfoldable pub arg_at : List (Option (List ℕ)) → ℕ → Option (List ℕ)
arg_at [] i = none
arg_at (a ∷ argv) zero = a
arg_at (a ∷ argv) (suc i) = arg_at argv i

-- `(argv[i] == NULL) || (strlen(argv[i]) == 0)` takes the first branch.
unfoldable pub with_arg : {A : Type 0} → Option (List ℕ) → A → (List ℕ → A) → A
with_arg none missing k = missing
with_arg (some []) missing k = missing
with_arg (some (c ∷ s)) missing k = k (c ∷ s)

-- The string in a buffer, none without a NUL.
unfoldable pub terminated : List ℕ → Option (List ℕ)
terminated [] = none
terminated (c ∷ s) =
    let rest = terminated s in
    if c == 0 then some [] else elim rest [ none ↦ none | some t ↦ some (c ∷ t) ]

unfoldable pub value_line : List ℕ → Option (List ℕ) → ShellLine
value_line key none = overread
value_line key (some value) = got_value value key

module _ (n : Nvs) where
  unfoldable pub cmd_syscfg_get : List (Option (List ℕ)) → n.Store → ℤ × ShellLine
  cmd_syscfg_get argv s =
      with_arg (arg_at argv 1) (negsuc 0, missing_key)
        (λ key. (pos 0, value_line key (terminated (syscfg_get n key (replicate 30 0) s).1)))

  -- What `syscfg_set` returns is not looked at.
  unfoldable pub cmd_syscfg_set : List (Option (List ℕ)) → n.Store → ℤ × ShellLine × n.Store
  cmd_syscfg_set argv s =
      with_arg (arg_at argv 1) (negsuc 0, missing_key, s)
        (λ key.
          with_arg (arg_at argv 2) (negsuc 0, missing_value, s)
            (λ value. (pos 0, set_value value key, (syscfg_set n key value s).1)))

-- A string that fits into a zeroed buffer is read back from it.
terminated-copy_over :
    (k : ℕ) (s : List ℕ)
    → HasNoNul s
    → length s < k
    → terminated (copy_over (replicate k 0) s) ≡ some s
unfolding terminated
terminated-copy_over zero s h lt = absurd (omega arith)
terminated-copy_over (suc k) [] h lt = refl
terminated-copy_over (suc k) (c ∷ s) (ne, h) lt =
    rw (==_ne c 0 ne, terminated-copy_over k s h (omega arith)) refl

module _ (n : Nvs) where
  -- When the write of `syscfg set` to the settings succeeds, with a key and a value that are not
  -- empty and a value of less than 30 bytes without a NUL, then `syscfg get` of a key prints that
  -- value when its id is that of the key that was set, and what it printed before otherwise.
  pub cmd_syscfg_get-set :
      (key other value : List ℕ) (c d v : ℕ) (s : n.Store)
      → HasNoNul (v ∷ value)
      → length value < 29
      → (syscfg_set n (c ∷ key) (v ∷ value) s).0 ≡ pos 0
      → let set_args = none ∷ some (c ∷ key) ∷ some (v ∷ value) ∷ [] in
        let get_args = none ∷ some (d ∷ other) ∷ [] in
        cmd_syscfg_get n get_args (cmd_syscfg_set n set_args s).2 ≡ (
          if get_key_id (d ∷ other) seed == get_key_id (c ∷ key) seed
          then (pos 0, got_value (v ∷ value) (d ∷ other))
          else cmd_syscfg_get n get_args s)
  unfolding cmd_syscfg_get cmd_syscfg_set with_arg arg_at value_line
  cmd_syscfg_get-set key other value c d v s plain fits stored =
      let kept =
        syscfg_get-set n (c ∷ key) (d ∷ other) (v ∷ value) (replicate 30 0) s stored (λ e. cc)
          (omega arith) in
      let line : ℤ × List ℕ → ℤ × ShellLine =
        λ r. (pos 0, value_line (d ∷ other) (terminated r.1)) in
      elim (Bool-cases (get_key_id (d ∷ other) seed == get_key_id (c ∷ key) seed)) [
        | inl same ↦
            rw same (
              ap line kept
              ∙ rw (same, terminated-copy_over 30 (v ∷ value) plain (omega arith)) refl)
        | inr differ ↦ rw differ (ap line kept ∙ rw differ refl)
      ]
