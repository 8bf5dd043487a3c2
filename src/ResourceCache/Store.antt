-- ===== src/ResourceCache/Store.antt =====
-- resource_cache/resource_cache.h: the items on the heap, the fields of `ResourceCache`, and the
-- functions that relink the list.
use cclab.Base.{ℕ, ◌+◌, Bool, true, false, not, ◌&&◌, Option, none, some, ◌==◌, if◌then◌else◌}
use cclab.Base.Int.{ℤ}
use cclab.Base.Pointers.{Ptr, update}
use cclab.Base.Ring.{unlink_next, unlink_prev, front_next, front_prev}

-- `std::chrono::system_clock`: its points in time, and the whole seconds from one to another, as
-- `duration_cast<seconds>` counts them.
pub record Clock : Type 1 where
  pub Time : Type 0
  pub seconds : (from to : Time) → ℤ

-- `ResourceCacheItem`: a function from the address for each field, and `allocated` for what `new` gave
-- and `delete` did not take. Addresses from `top` on were never given.
pub record Items (K V T : Type 0) : Type 0 where
  pub allocated : Ptr → Bool
  pub key : Ptr → K
  pub res : Ptr → V
  pub last_modified : Ptr → T
  pub prev : Ptr → Ptr
  pub next : Ptr → Ptr
  pub top : Ptr

-- `ResourceCache`: `cache_map` and its size, and the heap with the member `lru_head_` in it.
pub record Cache (K V T : Type 0) : Type 0 where
  pub capacity : ℤ
  pub expire_seconds : ℤ
  pub cache_map : K → Option Ptr
  pub size : ℕ
  pub items : Items K V T

-- The address of `lru_head_`, a member of the cache: `new` did not give it.
abbrev pub lru_head : Ptr
lru_head = 1

module _ {K V T : Type 0} where
  -- The assertions on an item: it is there, and so are its neighbours.
  abbrev pub is_linked : Items K V T → Ptr → Bool
  is_linked h p = not (p == 0) && (not (h.next p == 0) && not (h.prev p == 0))

  -- `item->prev->next = item->next; item->next->prev = item->prev;`
  abbrev pub unlink : Ptr → Items K V T → Items K V T
  unlink p h = record h { next = unlink_next h.next h.prev p; prev = unlink_prev h.next h.prev p }

  -- `InsertToLRU` behind its assertion, and the end of `MoveToLRUHead`
  abbrev pub link_front : Ptr → Items K V T → Items K V T
  link_front p h = record h {
    next = front_next h.next lru_head p;
    prev = front_prev h.next h.prev lru_head p;
  }

  -- `none` is an assertion that fails, or a `delete` of what `new` did not give.
  unfoldable pub insert_to_lru : Ptr → Items K V T → Option (Items K V T)
  insert_to_lru p h = if not (p == 0) then some (link_front p h) else none

  unfoldable pub remove_from_lru : Ptr → Items K V T → Option (Items K V T)
  remove_from_lru p h =
      let h' = unlink p h in
      if is_linked h p && h.allocated p
      then some (record h' { allocated = update h'.allocated p false })
      else none

  unfoldable pub move_to_lru_head : Ptr → Items K V T → Option (Items K V T)
  move_to_lru_head p h = if is_linked h p then some (link_front p (unlink p h)) else none

  -- `new ResourceCacheItem(k, r)` at time `now`; it does not return NULL.
  abbrev pub new_item : K → V → T → Items K V T → Items K V T
  new_item k r now h = record {
    allocated = update h.allocated h.top true;
    key = update h.key h.top k;
    res = update h.res h.top r;
    last_modified = update h.last_modified h.top now;
    prev = update h.prev h.top 0;
    next = update h.next h.top 0;
    top = h.top + 1;
  }
