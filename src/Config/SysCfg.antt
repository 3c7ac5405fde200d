-- ===== src/Config/SysCfg.antt =====
-- lib/framework/sys_cfg.c over Zephyr's NVS, flash and device calls, which are an interface: their
-- laws are what the file system documents. The values are lists of bytes.
pub mod Store
use zephyr_project.Config.Hash.{get_key_id, seed}
use zephyr_project.Prelude.{
  Bool, List, Option, [], false, if◌then◌else◌, length, none, not, some, suc, take, true, zero, ℕ,
  ◌==◌, ◌∷◌, ◌≡◌, ◌≢◌, ◌≤◌, Option-cases, inl, inr,
}
use zephyr_project.Prelude.Int.{is_neg, is_zero, negsuc, pos, ℤ}

-- nvs_read(id, len) gives the number of bytes of the item, or a negative code, and the bytes that it
-- copied, `len` at most.
pub record Nvs : Type 1 where
  pub Store : Type 0
  pub nvs_read : Store → ℕ → ℕ → ℤ × List ℕ
  pub nvs_write : Store → ℕ → List ℕ → ℤ × Store
  pub nvs_delete : Store → ℕ → ℤ × Store
  -- What is stored under an id.
  pub item : Store → ℕ → Option (List ℕ)
  pub read_item :
      (s : Store) (id len : ℕ) (v : List ℕ)
      → item s id ≡ some v
      → nvs_read s id len ≡ (pos (length v), take len v)
  pub read_none :
      (s : Store) (id len : ℕ)
      → item s id ≡ none
      → (is_neg (nvs_read s id len).0 ≡ true) × ((nvs_read s id len).1 ≡ [])
  pub write_ok :
      (s : Store) (id : ℕ) (v : List ℕ)
      → v ≢ []
      → is_neg (nvs_write s id v).0 ≡ false
      → (j : ℕ) → item (nvs_write s id v).1 j ≡ (if j == id then some v else item s j)
  pub delete_item :
      (s : Store) (id : ℕ)
      → is_zero (nvs_delete s id).0 ≡ true
      → (j : ℕ) → item (nvs_delete s id).1 j ≡ (if j == id then none else item s j)

-- `value` is the caller's buffer of `value_len` bytes: what is copied over its beginning.
abbrev pub copy_over : List ℕ → List ℕ → List ℕ
copy_over bs [] = bs
copy_over [] (v ∷ vs) = []
copy_over (b ∷ bs) (v ∷ vs) = v ∷ copy_over bs vs

-- The test `read_bytes <= 0`.
abbrev pub is_pos : ℤ → Bool
is_pos (pos zero) = false
is_pos (pos (suc n)) = true
is_pos (negsuc n) = false

-- What `syscfg_init` asks of the flash: is the device ready, the page's size or an error, and
-- whether the mount succeeds for a sector size and count.
pub record Flash (n : Nvs) : Type 0 where
  pub is_ready : Bool
  pub page_size : ℤ × ℕ
  pub nvs_mount : ℕ → ℕ → ℤ

-- struct nvs_fs, as far as `syscfg_init` fills it in.
pub record NvsFs : Type 0 where
  pub sector_size : ℕ
  pub sector_count : ℕ

module _ (n : Nvs) where
  unfoldable pub syscfg_init : Flash n → NvsFs → ℤ × NvsFs
  syscfg_init f fs =
      let fs' : NvsFs = record { sector_size = f.page_size.1; sector_count = 3 } in
      if not f.is_ready
      then (negsuc 0, fs)
      else if not (is_zero f.page_size.0)
      then (negsuc 0, fs)
      else if not (is_zero (f.nvs_mount fs'.sector_size fs'.sector_count))
      then (negsuc 0, fs')
      else (pos 0, fs')

  -- The status, and the caller's buffer afterwards.
  unfoldable pub syscfg_get : List ℕ → List ℕ → n.Store → ℤ × List ℕ
  syscfg_get key value s =
      let r = n.nvs_read s (get_key_id key seed) (length value) in
      (if is_pos r.0 then pos 0 else negsuc 0, copy_over value r.1)

  -- `value` is the C string's bytes without its NUL, which is not stored.
  unfoldable pub syscfg_set : List ℕ → List ℕ → n.Store → ℤ × n.Store
  syscfg_set key value s =
      let r = n.nvs_write s (get_key_id key seed) value in
      (if is_neg r.0 then negsuc 0 else pos 0, r.1)

  unfoldable pub syscfg_unset : List ℕ → n.Store → ℤ × n.Store
  syscfg_unset key s = n.nvs_delete s (get_key_id key seed)

  unfoldable pub syscfg_get_blob : List ℕ → List ℕ → n.Store → ℤ × List ℕ
  syscfg_get_blob key value s =
      let r = n.nvs_read s (get_key_id key seed) (length value) in
      (if is_pos r.0 then pos 0 else negsuc 0, copy_over value r.1)

  unfoldable pub syscfg_set_blob : List ℕ → List ℕ → n.Store → ℤ × n.Store
  syscfg_set_blob key value s =
      let r = n.nvs_write s (get_key_id key seed) value in
      (if is_neg r.0 then negsuc 0 else pos 0, r.1)
