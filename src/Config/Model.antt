-- ===== src/Config/Model.antt =====
-- A small settings store that meets the laws: a table of values by id. The theorems' instances run
-- on it.
use zephyr_project.Config.SysCfg.{Nvs}
use zephyr_project.Prelude.{List, Option, [], length, none, refl, some, take, true, update, ℕ, ◌≡◌}
use zephyr_project.Prelude.Int.{is_neg, negsuc, pos, ℤ}

abbrev pub read_value : Option (List ℕ) → ℕ → ℤ × List ℕ
read_value none len = (negsuc 1, [])
read_value (some v) len = (pos (length v), take len v)

pub read_item_lem :
    (o : Option (List ℕ)) (len : ℕ) (v : List ℕ)
    → o ≡ some v
    → read_value o len ≡ (pos (length v), take len v)
read_item_lem o len v e = rw e refl

pub read_none_lem :
    (o : Option (List ℕ)) (len : ℕ)
    → o ≡ none
    → (is_neg (read_value o len).0 ≡ true) × ((read_value o len).1 ≡ [])
read_none_lem o len e = rw e (refl, refl)

pub written_lem : (v : List ℕ) (A : Type 0) → is_neg (pos (length v)) ≡ true → A
written_lem v A fails = cc

abbrev pub table : Nvs
table = record {
  Store = ℕ → Option (List ℕ);
  nvs_read = λ s id len. read_value (s id) len;
  nvs_write = λ s id v. (pos (length v), update s id (some v));
  nvs_delete = λ s id. (pos 0, update s id none);
  item = λ s id. s id;
  read_item = λ s id len v e. read_item_lem (s id) len v e;
  read_none = λ s id len e. read_none_lem (s id) len e;
  write_ok = λ s id v ne ok j. refl;
  delete_item = λ s id deletes j. refl;
}
