-- ===== src/Hashtable/Store.antt =====
-- hashtable/hashtable.h and hashtable/hashtable.c: a table, the items it reaches, and the operations
-- on single items.
use cclab.Base.{
  ℕ, zero, suc, ◌+◌, ◌-◌, ◌%◌, ◌^◌, Bool, true, false, not, ◌&&◌, Option, none, some, List, [], ◌∷◌,
  ◌++◌, ◌==◌, if◌then◌else◌, ltb, leb, length, drop,
}
pub use cclab.Base.Pointers.{Ptr, update}

-- One function for each field of `HashItem`, from the item's address: fields of different items, and
-- different fields of one, do not overlap. `live` tells allocated items. `key` are the bytes from
-- `HASHITEM_KEY` on.
pub record Items : Type 0 where
  pub live : Ptr → Bool
  pub next : Ptr → Ptr
  pub prev : Ptr → Ptr
  pub h_next : Ptr → Ptr
  pub key_length : Ptr → ℕ
  pub key_offset : Ptr → ℕ
  pub key : Ptr → List ℕ

-- `HashTable`; `none` is a NULL array of buckets. The last two fields tell whether `alloc_func` and
-- `free_func` are set.
pub record Table : Type 0 where
  pub hash_items : ℕ
  pub buckets : Option (ℕ → Ptr)
  pub head : Ptr
  pub tail : Ptr
  pub can_alloc : Bool
  pub can_free : Bool

-- The table and the heap of items.
pub record State : Type 0 where
  pub table : Table
  pub items : Items

pub data Code : Type 0 where
  ok invalid_param invalid_hashtable exists not_found out_of_memory : Code

-- `p` may be dereferenced.
abbrev pub reachable : Items → Ptr → Bool
reachable h p = not (p == 0) && h.live p

-- `p->next = q`, `p->prev = q` and `p->h_next = q`
abbrev pub set_next : Ptr → Ptr → Items → Items
set_next p q h = record h { next = update h.next p q }

abbrev pub set_prev : Ptr → Ptr → Items → Items
set_prev p q h = record h { prev = update h.prev p q }

abbrev pub set_h_next : Ptr → Ptr → Items → Items
set_h_next p q h = record h { h_next = update h.h_next p q }

abbrev pub hashpower : ℕ
hashpower = 16

-- `memcmp(a, b, n) == 0`, false where one of the two ends before
unfoldable pub memcmp_eq : List ℕ → List ℕ → ℕ → Bool
memcmp_eq a b zero = true
memcmp_eq [] b (suc n) = false
memcmp_eq (x ∷ a) [] (suc n) = false
memcmp_eq (x ∷ a) (y ∷ b) (suc n) = (x == y) && memcmp_eq a b n

-- `nkey == p->key_length && memcmp(key, HASHITEM_KEY(p), nkey) == 0`
abbrev pub has_key : Items → List ℕ → ℕ → Ptr → Bool
has_key h key nkey p = (nkey == h.key_length p) && memcmp_eq key (h.key p) nkey

abbrev zeros : ℕ → List ℕ
zeros zero = []
zeros (suc n) = 0 ∷ zeros n

-- `hashitem_alloc`, where `alloc_func` returns `fresh`; the new item is zeroed.
unfoldable pub hashitem_alloc : (ht : Bool) → ℕ → (fresh : Ptr) → State → Ptr × State
hashitem_alloc ht n fresh s =
    if not ht
    then (0, s)
    else if not s.table.can_alloc
    then (0, s)
    else if n == 0
    then (0, s)
    else if fresh == 0
    then (0, s)
    else (
      fresh,
      record s {
        items = record {
          live = update h.live fresh true;
          next = update h.next fresh 0;
          prev = update h.prev fresh 0;
          h_next = update h.h_next fresh 0;
          key_length = update h.key_length fresh 0;
          key_offset = update h.key_offset fresh 0;
          key = update h.key fresh (zeros n);
        };
      },
    )
  where
    open s use {items as h}

-- `hashitem_free`
unfoldable pub hashitem_free : (ht : Bool) → Ptr → State → State
hashitem_free ht p s =
    if ht && (s.table.can_free && not (p == 0))
    then record s { items = record h { live = update h.live p false } }
    else s
  where
    open s use {items as h}

-- A size stored in an `int`, as a comparison with a `size_t` reads it
abbrev stored_size : ℕ → ℕ
stored_size n = let k = n % 2 ^ 32 in if ltb k (2 ^ 31) then k else k + (2 ^ 64 - 2 ^ 32)

-- `hashitem_fill` for the string `key` without its NUL, which `sprintf` writes too, at an offset not less than the
-- item's; what it writes must be within the allocated item, and the bytes behind it stay.
unfoldable pub hashitem_fill : Ptr → ℕ → List ℕ → ℕ → State → Option State
hashitem_fill p offset key nkey s =
    let end = offset - h.key_offset p + length key + 1 in
    if reachable h p && leb end (length (h.key p))
    then some (record s {
      items = record h {
        key_offset = update h.key_offset p offset;
        key = update h.key p (key ++ (0 ∷ drop end (h.key p)));
        key_length = update h.key_length p (stored_size nkey);
      };
    })
    else none
  where
    open s use {items as h}

-- `hashtable_init`; `calloc` grants the zeroed array of buckets or not. A NULL function is replaced
-- by `malloc` or `free`, so both are set.
unfoldable pub hashtable_init : (ht granted : Bool) → State → Code × State
hashtable_init ht granted s =
    if not ht
    then (Code.invalid_param, s)
    else if granted
    then (
      Code.ok,
      record s {
        table = record {
          hash_items = 0;
          buckets = some (λ _. 0);
          head = 0;
          tail = 0;
          can_alloc = true;
          can_free = true;
        };
      },
    )
    else (
      Code.out_of_memory,
      record s { table = record s.table { hash_items = 0; head = 0; tail = 0; buckets = none } },
    )
