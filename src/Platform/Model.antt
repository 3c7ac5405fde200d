-- ===== src/Platform/Model.antt =====
-- A small platform that meets the laws: a heap of eight blocks and bounded lists for the queues.
-- The theorems' instances run on it.
use zephyr_project.Prelude.{
  ℕ, suc, ◌+◌, ◌<◌, ◌≤◌, ◌≡◌, refl, Bool, true, false, Option, none, some, List, [], ◌∷◌, ◌++◌,
  arith, ◌==◌, ltb, if◌then◌else◌, length,
}
use zephyr_project.Prelude.Int.{ℤ, pos, negsuc, is_zero}
use zephyr_project.Platform.Defs.{Timeout, no_wait, Kconfig, Platform}

abbrev pub total : List ℕ → ℕ
total [] = 0
total (b ∷ bs) = b + total bs

abbrev pub has : List ℕ → ℕ → Bool
has [] a = false
has (b ∷ bs) a = if a == b then true else has bs a

abbrev pub drop_block : List ℕ → ℕ → List ℕ
drop_block [] a = []
drop_block (b ∷ bs) a = if b == a then drop_block bs a else b ∷ drop_block bs a

abbrev pub alloc : List ℕ → ℕ → Timeout → Option ℕ × List ℕ
alloc h n t = if ltb (length h) 8 then (some (suc (total h)), suc (total h) ∷ h) else (none, h)

has_above : (h : List ℕ) (a : ℕ) → total h < a → has h a ≡ false
has_above [] a lt = refl
has_above (b ∷ bs) a lt = ground (arith, has_above bs a)

pub alloc_fresh_lem :
    (h : List ℕ) (n : ℕ) (t : Timeout) (b : ℕ) → (alloc h n t).0 ≡ some b → has h b ≡ false
alloc_fresh_lem h n t b e = ground (arith, has_above h (suc (total h)))

pub alloc_live_lem :
    (h : List ℕ) (n : ℕ) (t : Timeout) (b : ℕ)
    → (alloc h n t).0 ≡ some b
    → (a : ℕ) → has (alloc h n t).1 a ≡ (if a == b then true else has h a)
alloc_live_lem h n t b e a = ground arith

pub alloc_none_lem :
    (h : List ℕ) (n : ℕ) (t : Timeout)
    → (alloc h n t).0 ≡ none
    → (a : ℕ) → has (alloc h n t).1 a ≡ has h a
alloc_none_lem h n t e a = ground arith

pub free_live_lem :
    (h : List ℕ) (b a : ℕ) → has (drop_block h b) a ≡ (if a == b then false else has h a)
free_live_lem [] b a = ground arith
free_live_lem (c ∷ h) b a = ground (arith, free_live_lem h b a)

pub record Queue : Type 0 where
  pub items : List ℕ
  pub cap : ℕ

-- -ENOMSG
abbrev pub enomsg : ℤ
enomsg = negsuc 34

abbrev pub put : Queue → ℕ → Timeout → ℤ × Queue
put q p t =
    if ltb (length q.items) q.cap
    then (pos 0, record q { items = q.items ++ p ∷ [] })
    else (enomsg, q)

abbrev pub get_items : List ℕ → ℕ → ℤ × ℕ × Queue
get_items [] c = (enomsg, 0, record { items = []; cap = c })
get_items (p ∷ ps) c = (pos 0, p, record { items = ps; cap = c })

abbrev pub get : Queue → Timeout → ℤ × ℕ × Queue
get q t = get_items q.items q.cap

pub put_ok_lem :
    (q : Queue) (p : ℕ) (t : Timeout)
    → is_zero (put q p t).0 ≡ true
    → (put q p t).1.items ≡ q.items ++ p ∷ []
put_ok_lem q p t e = ground arith

pub put_refused_lem :
    (q : Queue) (p : ℕ) (t : Timeout)
    → is_zero (put q p t).0 ≡ false
    → (put q p t).1.items ≡ q.items
put_refused_lem q p t e = ground arith

pub put_room_lem :
    (q : Queue) (p : ℕ) (t : Timeout) → length q.items < q.cap → is_zero (put q p t).0 ≡ true
put_room_lem q p t e = ground arith

pub put_full_lem :
    (q : Queue) (p : ℕ) → q.cap ≤ length q.items → is_zero (put q p no_wait).0 ≡ false
put_full_lem q p e = ground arith

pub get_cons_lem :
    (q : Queue) (t : Timeout) (p : ℕ) (ps : List ℕ)
    → q.items ≡ p ∷ ps
    → (is_zero (get q t).0 ≡ true) × ((get q t).1 ≡ p) × ((get q t).2.items ≡ ps)
get_cons_lem q t p ps e = rw e (refl, refl, refl)

pub get_nil_lem :
    (q : Queue)
    → q.items ≡ []
    → (is_zero (get q no_wait).0 ≡ false) × ((get q no_wait).2.items ≡ [])
get_nil_lem q e = rw e (refl, refl)

-- The pool statistics are on, with a window of three sizes and the double free check.
abbrev pub kconfig : Kconfig
kconfig = record {
  buffer_pool_size = 1024;
  buffer_pool_stats = true;
  buffer_pool_window_size = 3;
  buffer_pool_check_double_free = true;
}

abbrev pub model : Platform
model = record {
  config = kconfig;
  Heap = List ℕ;
  k_heap_alloc = alloc;
  k_heap_free = drop_block;
  live = has;
  alloc_fresh = alloc_fresh_lem;
  alloc_live = alloc_live_lem;
  alloc_none = alloc_none_lem;
  free_live = free_live_lem;
  Msgq = Queue;
  k_msgq_put = put;
  k_msgq_get = get;
  contents = λ q. q.items;
  max_msgs = λ q. q.cap;
  k_msgq_num_used_get = λ q. length q.items;
  num_used = λ q. refl;
  put_ok = put_ok_lem;
  put_refused = put_refused_lem;
  put_room = put_room_lem;
  put_full = put_full_lem;
  get_cons = get_cons_lem;
  get_nil = get_nil_lem;
}
