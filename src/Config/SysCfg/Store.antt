-- ===== src/Config/SysCfg/Store.antt =====
-- The settings as a map from key ids to values: `syscfg_get` looks up, `syscfg_set` inserts,
-- `syscfg_unset` deletes.
use zephyr_project.Config.Hash.{get_key_id, seed}
use zephyr_project.Config.SysCfg.{Nvs, copy_over, is_pos, syscfg_get, syscfg_set, syscfg_unset}
use zephyr_project.Prelude.{
  Bool-cases, List, Option, Option-cases, [], arith, false, if◌then◌else◌, inl, inr, length, none,
  refl, some, suc, sym, take, take-all, true, zero, ℕ, ◌==◌, ◌∷◌, ◌≡◌, ◌≢◌, ◌≤◌,
}
use zephyr_project.Prelude.Int.{is_neg, negsuc, pos, ℤ, is_zero}

-- A get's result, from what is stored: -1 and an untouched buffer without an item or for an empty
-- one, else 0 and the item's bytes, as many as fit, over the beginning of the buffer.
abbrev pub got : Option (List ℕ) → List ℕ → ℤ × List ℕ
got none value = (negsuc 0, value)
got (some []) value = (negsuc 0, value)
got (some (c ∷ v)) value = (pos 0, copy_over value (take (length value) (c ∷ v)))

pub got_fits :
    (v value : List ℕ)
    → v ≢ []
    → length v ≤ length value
    → got (some v) value ≡ (pos 0, copy_over value v)
got_fits [] value ne fits = absurd (ne refl)
got_fits (c ∷ v) value ne fits = rw (take-all (length value) (c ∷ v) fits)

take-nil : (n : ℕ) → take {A = ℕ} n [] ≡ []
take-nil zero = refl
take-nil (suc n) = refl

neg_not_pos : (z : ℤ) → is_neg z ≡ true → is_pos z ≡ false
neg_not_pos (pos n) h = cc
neg_not_pos (negsuc n) h = refl

set_status : (z : ℤ) → (if is_neg z then negsuc 0 else pos 0) ≡ pos 0 → is_neg z ≡ false
set_status z h = ground arith

module _ (n : Nvs) where
  syscfg_get-none :
      (key value : List ℕ) (s : n.Store)
      → n.item s (get_key_id key seed) ≡ none
      → syscfg_get n key value s ≡ (negsuc 0, value)
  unfolding syscfg_get
  syscfg_get-none key value s e =
      let r = n.read_none s (get_key_id key seed) (length value) e in rw (neg_not_pos _ r.0, r.1)

  syscfg_get-some :
      (key value v : List ℕ) (s : n.Store)
      → n.item s (get_key_id key seed) ≡ some v
      → syscfg_get n key value s ≡ got (some v) value
  unfolding syscfg_get
  syscfg_get-some key value [] s e =
      rw (n.read_item s (get_key_id key seed) (length value) [] e, take-nil (length value))
  syscfg_get-some key value (c ∷ v) s e =
      rw (n.read_item s (get_key_id key seed) (length value) (c ∷ v) e)

  -- `syscfg_get` is a lookup by the key's id.
  pub syscfg_get-got :
      (key value : List ℕ) (s : n.Store)
      → syscfg_get n key value s ≡ got (n.item s (get_key_id key seed)) value
  syscfg_get-got key value s = elim (Option-cases (n.item s (get_key_id key seed))) [
    | inl e ↦ rw e (syscfg_get-none key value s e)
    | inr (v, e) ↦ rw e (syscfg_get-some key value v s e)
  ]

  -- After a set of a value that is not empty, which reports no error, a get of any key with the same id into a buffer that is large
  -- enough returns 0 and the value at the beginning of the buffer, and a get of any key with another
  -- id returns what it returned before.
  pub syscfg_get-set :
      (key other v value : List ℕ) (s : n.Store)
      → (syscfg_set n key v s).0 ≡ pos 0
      → v ≢ []
      → length v ≤ length value
      → syscfg_get n other value (syscfg_set n key v s).1 ≡ (
          if get_key_id other seed == get_key_id key seed
          then (pos 0, copy_over value v)
          else syscfg_get n other value s)
  unfolding syscfg_set
  syscfg_get-set key other v value s h ne fits =
      let stored =
        n.write_ok s (get_key_id key seed) v ne (set_status _ h) (get_key_id other seed) in
      elim (Bool-cases (get_key_id other seed == get_key_id key seed)) [
        | inl same ↦ rw (syscfg_get-got other value _, stored, same) (got_fits v value ne fits)
        | inr differ ↦
            rw
              (syscfg_get-got other value (n.nvs_write s (get_key_id key seed) v).1, stored, differ)
              (sym (syscfg_get-got other value s))
      ]

  -- After an unset that the file system reports to have worked, a get of any key with the same id returns -1 and leaves the buffer alone, and a
  -- get of any key with another id returns what it returned before.
  pub syscfg_get-unset :
      (key other value : List ℕ) (s : n.Store)
      → is_zero (n.nvs_delete s (get_key_id key seed)).0 ≡ true
      → syscfg_get n other value (syscfg_unset n key s).1 ≡ (
          if get_key_id other seed == get_key_id key seed
          then (negsuc 0, value)
          else syscfg_get n other value s)
  unfolding syscfg_unset
  syscfg_get-unset key other value s deletes =
      let deleted = n.delete_item s (get_key_id key seed) deletes (get_key_id other seed) in
      elim (Bool-cases (get_key_id other seed == get_key_id key seed)) [
        | inl same ↦ rw (syscfg_get-got other value _, deleted, same)
        | inr differ ↦
            rw
              (syscfg_get-got other value (n.nvs_delete s (get_key_id key seed)).1, deleted, differ)
              (sym (syscfg_get-got other value s))
      ]
