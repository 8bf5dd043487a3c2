-- ===== src/ResourceCache/Ops.antt =====
-- resource_cache/resource_cache.h: the constructors, `Get`, `Set` and the destructor, each under the
-- mutex. Keys are compared by a decision.
use mathlib.Core.Logic.{ite}
use cclab.Base.{
  ℕ, ◌+◌, ◌-◌, ◌^◌, Bool, true, false, Option, none, some, List, [], ◌∷◌, ◌==◌, if◌then◌else◌, ltb,
}
use cclab.Base.Int.{ℤ, pos, negsuc}
use cclab.Base.Pointers.{Ptr, update}
use cclab.ResourceCache.Store.{
  Clock, Items, Cache, lru_head, insert_to_lru, remove_from_lru, move_to_lru_head, new_item,
}

-- `a < b` on `int`
abbrev pub lt_int : ℤ → ℤ → Bool
lt_int (pos a) (pos b) = ltb a b
lt_int (pos a) (negsuc b) = false
lt_int (negsuc a) (pos b) = true
lt_int (negsuc a) (negsuc b) = ltb b a

-- `size == capacity`, where the `int` is converted to `size_t`
abbrev pub eq_size : ℕ → ℤ → Bool
eq_size n (pos c) = n == c
eq_size n (negsuc c) = n + c + 1 == 2 ^ 64

abbrev pub cache_expire_seconds : ℤ
cache_expire_seconds = pos 30

module _ {K V : Type 0} (dec : Discrete K) (clock : Clock) where
  open clock use {Time, seconds}

  -- The constructor; before it no item is allocated at `lru_head_`.
  unfoldable pub new_cache : (capacity expire_seconds : ℤ) → Items K V Time → Cache K V Time
  new_cache capacity expire h = record {
    capacity = capacity;
    expire_seconds = expire;
    cache_map = λ k. none;
    size = 0;
    items = record h {
      next = update h.next lru_head lru_head;
      prev = update h.prev lru_head lru_head;
    };
  }

  -- The constructor with the default time to live.
  unfoldable pub new_cache_default : (capacity : ℤ) → Items K V Time → Cache K V Time
  new_cache_default capacity h = new_cache capacity cache_expire_seconds h

  abbrev pub read : Cache K V Time → Time → Option Ptr → Option V
  read c now none = none
  read c now (some p) =
      if lt_int (seconds (c.items.last_modified p) now) c.expire_seconds
      then some (c.items.res p)
      else none

  -- `Get`; `none` is the null pointer.
  unfoldable pub get : K → Time → Cache K V Time → Option V
  get k now c = read c now (c.cache_map k)

  -- `cache_map_.erase(k)`
  abbrev pub erase : K → Cache K V Time → Cache K V Time
  erase k c = record c {
    cache_map = λ j. ite (dec j k) none (c.cache_map j);
    size = elim (c.cache_map k) [ none ↦ c.size | some p ↦ c.size - 1 ];
  }

  abbrev pub with_items : Cache K V Time → Option (Items K V Time) → Option (Cache K V Time)
  with_items c none = none
  with_items c (some h) = some (record c { items = h })

  -- Where the cache is full, its rear item is evicted: erased from the map, then from the list.
  unfoldable pub evict : Cache K V Time → Option (Cache K V Time)
  evict c =
      let rear = c.items.prev lru_head in
      if eq_size c.size c.capacity
      then with_items (erase (c.items.key rear) c) (remove_from_lru rear c.items)
      else some c

  abbrev pub returned : Option (Cache K V Time) → Option (Bool × Cache K V Time)
  returned none = none
  returned (some c) = some (true, c)

  -- A new item goes to the map and to the front of the list.
  abbrev pub add : K → V → Time → Option (Cache K V Time) → Option (Bool × Cache K V Time)
  add k r now none = none
  add k r now (some c) =
      let p = c.items.top in
      let h = new_item k r now c.items in
      let c' = record c {
        cache_map = λ j. ite (dec j k) (some p) (c.cache_map j);
        size = elim (c.cache_map k) [ none ↦ c.size + 1 | some q ↦ c.size ];
      } in
      returned (with_items c' (insert_to_lru p h))

  abbrev pub put : K → V → Time → Cache K V Time → Option Ptr → Option (Bool × Cache K V Time)
  put k r now c none = add k r now (evict c)
  put k r now c (some p) =
      let h = record c.items {
        res = update c.items.res p r;
        last_modified = update c.items.last_modified p now;
      } in
      returned (with_items c (move_to_lru_head p h))

  -- `Set`; the result is always true.
  unfoldable pub set : K → V → Time → Cache K V Time → Option (Bool × Cache K V Time)
  set k r now c = put k r now c (c.cache_map k)

  abbrev destroy_item : Option Ptr → Items K V Time → Option (Items K V Time)
  destroy_item none h = some h
  destroy_item (some p) h =
      if h.allocated p then some (record h { allocated = update h.allocated p false }) else none

  abbrev destroy_rest :
      (Items K V Time → Option (Items K V Time)) → Option (Items K V Time) → Option (Items K V Time)
  destroy_rest f none = none
  destroy_rest f (some h) = f h

  -- The loop of the destructor over the map; `keys` are its keys, in the order in which it gives them.
  unfoldable pub destroy_items :
      List K → (K → Option Ptr) → Items K V Time → Option (Items K V Time)
  destroy_items [] m h = some h
  destroy_items (k ∷ keys) m h = destroy_rest (λ h'. destroy_items keys m h') (destroy_item (m k) h)

  -- `~ResourceCache`
  unfoldable pub destroy : List K → Cache K V Time → Option (Cache K V Time)
  destroy keys c =
      with_items (record c { cache_map = λ k. none; size = 0 })
        (destroy_items keys c.cache_map c.items)
