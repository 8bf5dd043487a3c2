-- ===== src/Hashtable/Lookup.antt =====
-- hashtable/hashtable.c: `hashtable_find`, `hashtable_insert` and
-- `hashtable_remove` with `_hashitem_before`, over the hash function of hash.c as a parameter.
use cclab.Base.{
  ℕ, zero, suc, ◌+◌, ◌-◌, ◌%◌, ◌^◌, Bool, not, ◌&&◌, ◌||◌, Option, none, some, List, ◌==◌,
  if◌then◌else◌,
}
use cclab.Hashtable.Store.{
  Ptr, Items, Table, State, Code, update, set_next, set_prev, set_h_next, hashpower, has_key,
}

-- Where a pointer to an item stands: in the array of buckets, or in the `h_next` of an item.
pub data Place : Type 0 where
  bucket : ℕ → Place
  link : Ptr → Place

-- The loop of `hashtable_find` from `p`: the item with the key, or NULL. `none` is an access to an
-- item that is not allocated, or that the fuel has run out.
unfoldable pub find_loop : ℕ → Items → List ℕ → ℕ → Ptr → Option Ptr
find_loop zero h key nkey p = none
find_loop (suc f) h key nkey p =
    let rest = find_loop f h key nkey (h.h_next p) in
    if p == 0
    then some 0
    else if not (h.live p)
    then none
    else if has_key h key nkey p
    then some p
    else rest

-- The loop of `_hashitem_before`: the place that holds the item with the key, or NULL.
unfoldable pub before_loop : ℕ → Items → List ℕ → ℕ → Place → Ptr → Option (Place × Ptr)
before_loop zero h key nkey at p = none
before_loop (suc f) h key nkey at p =
    let rest = before_loop f h key nkey (link p) (h.h_next p) in
    if p == 0
    then some (at, 0)
    else if not (h.live p)
    then none
    else if has_key h key nkey p
    then some (at, p)
    else rest

-- Every chain is shorter than the number of items plus one.
abbrev pub rounds : Table → ℕ
rounds t = t.hash_items + 1

module _ (hash : List ℕ → ℕ → ℕ → ℕ) where
  -- `hash(key, nkey, 0) & hashmask(hashpower)`
  abbrev pub bucket_of : List ℕ → ℕ → ℕ
  bucket_of key nkey = hash key nkey 0 % 2 ^ hashpower

  abbrev pub find_in : Option (ℕ → Ptr) → State → List ℕ → ℕ → Option Ptr
  find_in none s key nkey = none
  find_in (some b) s key nkey = find_loop (rounds s.table) s.items key nkey (b (bucket_of key nkey))

  -- `hashtable_find`; the key is NULL or bytes.
  unfoldable pub hashtable_find : (ht : Bool) → Option (List ℕ) → ℕ → State → Option Ptr
  hashtable_find ht none nkey s = some 0
  hashtable_find ht (some key) nkey s =
      if not ht || nkey == 0 then some 0 else find_in s.table.buckets s key nkey

  -- From `hi->h_next = …` to the end of `hashtable_insert`.
  abbrev pub append_item : (ℕ → Ptr) → ℕ → Ptr → State → State
  append_item b i hi s =
      let h₁ = set_prev hi s.table.tail (set_next hi 0 (set_h_next hi (b i) s.items)) in
      record {
        table = record s.table {
          buckets = some (update b i hi);
          tail = hi;
          head = if s.table.head == 0 then hi else s.table.head;
          hash_items = (s.table.hash_items + 1) % 2 ^ 32;
        };
        items = if s.table.tail == 0 then h₁ else set_next s.table.tail hi h₁;
      }

  -- The outcome of the search for the key of `hi`, then the insertion.
  abbrev pub insert_found : Option Ptr → (ℕ → Ptr) → ℕ → Ptr → State → Option (Code × State)
  insert_found none b i hi s = none
  insert_found (some p) b i hi s =
      if not (p == 0)
      then some (Code.exists, s)
      else if s.table.tail == 0 || s.items.live s.table.tail
      then some (Code.ok, append_item b i hi s)
      else none

  abbrev pub insert_in : Option (ℕ → Ptr) → Ptr → State → Option (Code × State)
  insert_in none hi s = none
  insert_in (some b) hi s =
      let key = s.items.key hi in
      let nkey = s.items.key_length hi in
      let i = bucket_of key nkey in
      insert_found (find_loop (rounds s.table) s.items key nkey (b i)) b i hi s

  -- `hashtable_insert`
  unfoldable pub hashtable_insert : (ht : Bool) → Ptr → State → Option (Code × State)
  hashtable_insert ht hi s =
      if not ht || hi == 0
      then some (Code.invalid_param, s)
      else if s.items.live hi
      then insert_in s.table.buckets hi s
      else none

  -- `*before = q`
  abbrev pub store_place : (ℕ → Ptr) → Place → Ptr → State → State
  store_place b (bucket i) q s = record s {
    table = record s.table { buckets = some (update b i q) };
  }
  store_place b (link p) q s = record s { items = set_h_next p q s.items }

  -- `*item` leaves the doubly linked list.
  abbrev pub unlink_item : Ptr → Items → Items
  unlink_item p h =
      let h₁ = if h.prev p == 0 then h else set_next (h.prev p) (h.next p) h in
      let h₂ = if h₁.next p == 0 then h₁ else set_prev (h₁.next p) (h₁.prev p) h₁ in
      set_prev p 0 (set_next p 0 h₂)

  -- From `(*item)->h_next = NULL` to the count.
  abbrev pub detach_item : Ptr → State → State
  detach_item p s =
      let h = set_h_next p 0 s.items in
      record {
        table = record s.table {
          head = if p == s.table.head then h.next p else s.table.head;
          tail = if p == s.table.tail then h.prev p else s.table.tail;
          hash_items = (s.table.hash_items + 2 ^ 32 - 1) % 2 ^ 32;
        };
        items = unlink_item p h;
      }

  -- The neighbours of an item may be dereferenced.
  abbrev pub neighbours : Items → Ptr → Bool
  neighbours h p = (h.prev p == 0 || h.live (h.prev p)) && (h.next p == 0 || h.live (h.next p))

  abbrev pub remove_found :
      Option (Place × Ptr) → (ℕ → Ptr) → State → Option (Code × Option Ptr × State)
  remove_found none b s = none
  remove_found (some (at, p)) b s =
      if p == 0
      then some (Code.not_found, none, s)
      else if neighbours s.items p
      then some (Code.ok, some p, detach_item p (store_place b at (s.items.h_next p) s))
      else none

  abbrev pub remove_in : Option (ℕ → Ptr) → List ℕ → ℕ → State → Option (Code × Option Ptr × State)
  remove_in none key nkey s = none
  remove_in (some b) key nkey s =
      let i = bucket_of key nkey in
      remove_found (before_loop (rounds s.table) s.items key nkey (bucket i) (b i)) b s

  -- `hashtable_remove`; the key is NULL or bytes, `item` tells whether that pointer is set, and the
  -- result has what is written through it.
  unfoldable pub hashtable_remove :
      (ht : Bool) → Option (List ℕ) → ℕ → (item : Bool) → State → Option (Code × Option Ptr × State)
  hashtable_remove ht none nkey item s = some (Code.invalid_param, none, s)
  hashtable_remove ht (some key) nkey item s =
      if not ht || (nkey == 0 || not item)
      then some (Code.invalid_param, none, s)
      else remove_in s.table.buckets key nkey s
