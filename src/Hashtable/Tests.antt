-- ===== src/Hashtable/Tests.antt =====
-- The hash table at concrete inputs: runs of its functions, and the theorems at them.
use cclab.Base.{
  Bool, ℕ, ◌≡◌, ◌≢◌, ◌⊎◌, refl, true, false, Option, not, none, some, List, [], ◌∷◌, arith,
  if◌then◌else◌, ◌==◌, ◌||◌,
}
use cclab.Base.Int.{pos, minus_one}
use cclab.Hashtable.Store.{
  Ptr, hashitem_free, Items, Table, State, Code, has_key, memcmp_eq, hashtable_init,
}
use cclab.Hashtable.Lists.{has, delete}
use cclab.Hashtable.Lookup.{find_loop, hashtable_find, hashtable_insert, hashtable_remove}
use cclab.Hashtable.Append.{appended, appended-IsValid, place}
use cclab.Hashtable.Valid.{find_first, ReadsKey, IsValid, empty-IsValid, find_refines}
use cclab.Hashtable.Insert.{insert_refines}
use cclab.Hashtable.Remove.{remove_refines}
use cclab.Hashtable.Traverse.{
  ApplyFunc, apply_loop, apply_end, hashtable_apply, hashtable_clear, hashtable_destroy,
}
use cclab.Hashtable.Apply.{Spares, visit, hashtable_apply-visit}
use cclab.Hashtable.Init.{init_lem, destroy_empty}
use cclab.Hashtable.Clear.{Freed, clear_lem, destroy_lem}

-- A hash function that looks at the length alone: keys of one length share a bucket.
abbrev by_length : List ℕ → ℕ → ℕ → ℕ
by_length key n init = n

by_length-ReadsKey : ReadsKey by_length
by_length-ReadsKey a b n e = refl

-- Two allocated items, at 10 and 20, with keys of two bytes.
abbrev two_items : Items
two_items = record {
  live = λ p. p == 10 || p == 20;
  next = λ p. 0;
  prev = λ p. 0;
  h_next = λ p. 0;
  key_length = λ p. 2;
  key_offset = λ p. 0;
  key = λ p. if p == 10 then 1 ∷ 2 ∷ [] else 1 ∷ 3 ∷ [];
}

abbrev empty_table : Table
empty_table = record {
  hash_items = 0;
  buckets = some (λ _. 0);
  head = 0;
  tail = 0;
  can_alloc = true;
  can_free = true;
}

abbrev start : State
start = record { table = empty_table; items = two_items }

start-IsValid : IsValid by_length start []
start-IsValid = empty-IsValid by_length start refl refl refl refl

abbrev one_item : State
one_item = appended (λ _. 0) 2 10 start

one_item-IsValid : IsValid by_length one_item (10 ∷ [])
unfolding place start-IsValid empty-IsValid by_length-ReadsKey
one_item-IsValid =
    appended-IsValid by_length by_length-ReadsKey start [] start-IsValid 10 (omega arith) refl refl
      (λ p m. cc) (omega arith)

-- What a caller sees of an insertion: its result, the ends of the list and the count.
abbrev view : Option (Code × State) → Option (Code × ℕ × ℕ × ℕ)
view none = none
view (some (c, s)) = some (c, s.table.head, s.table.tail, s.table.hash_items)

inserted_both : view (hashtable_insert by_length true 20 one_item) ≡ some (Code.ok, 10, 20, 2)
unfolding hashtable_insert find_loop memcmp_eq place
inserted_both = refl

abbrev same_keys : State
same_keys = record one_item { items = record two_items { key = λ p. 1 ∷ 2 ∷ [] } }

same_key_refused :
    view (hashtable_insert by_length true 20 same_keys) ≡ some (Code.exists, 10, 10, 1)
unfolding hashtable_insert find_loop memcmp_eq place
same_key_refused = refl

find_refines_example :
    hashtable_find by_length true (some (1 ∷ 2 ∷ [])) 2 one_item
    ≡ some (find_first one_item.items (1 ∷ 2 ∷ []) 2 (10 ∷ []))
find_refines_example =
    find_refines by_length by_length-ReadsKey one_item (10 ∷ []) (1 ∷ 2 ∷ []) 2 one_item-IsValid
      (omega arith)

insert_refines_example :
    let r = find_first one_item.items (1 ∷ 3 ∷ []) 2 (10 ∷ []) in
    ((r ≢ 0) × (hashtable_insert by_length true 20 one_item ≡ some (Code.exists, one_item)))
    ⊎ ((r ≡ 0)
        × ((s' : State) × (hashtable_insert by_length true 20 one_item ≡ some (Code.ok, s'))
            × (s'.items.key ≡ one_item.items.key)
            × (s'.items.key_length ≡ one_item.items.key_length)
            × IsValid by_length s' (10 ∷ 20 ∷ [])))
insert_refines_example =
    insert_refines by_length by_length-ReadsKey one_item (10 ∷ []) 20 one_item-IsValid (omega arith)
      refl refl (omega arith)

remove_refines_example :
    let key : List ℕ = 1 ∷ 2 ∷ [] in
    let r = find_first one_item.items key 2 (10 ∷ []) in
    ((r ≡ 0)
      × (hashtable_remove by_length true (some key) 2 true one_item
          ≡ some (Code.not_found, none, one_item)))
    ⊎ ((has r (10 ∷ []) ≡ true)
        × (has_key one_item.items key 2 r ≡ true)
        × ((s' : State) × (hashtable_remove by_length true (some key) 2 true one_item
              ≡ some (Code.ok, some r, s'))
            × (s'.items.key ≡ one_item.items.key)
            × (s'.items.key_length ≡ one_item.items.key_length)
            × IsValid by_length s' (delete r (10 ∷ []))))
remove_refines_example =
    remove_refines by_length by_length-ReadsKey one_item (10 ∷ []) (1 ∷ 2 ∷ []) 2 one_item-IsValid
      (omega arith)

init_granted :
    ((hashtable_init true true start).0 ≡ Code.ok)
    × IsValid by_length (hashtable_init true true start).1 []
    × ((hashtable_init true false start).0 ≡ Code.out_of_memory)
    × ((hashtable_init true false start).1.table.buckets ≡ none)
init_granted = init_lem by_length start

destroy_empty_example :
    (hashtable_clear true start ≡ some (minus_one, start))
    × (hashtable_destroy true start ≡ some (minus_one, start))
destroy_empty_example = destroy_empty by_length start start-IsValid

clear_lem_example :
    (s' : State) × (hashtable_clear true one_item ≡ some (pos 0, s'))
    × IsValid by_length s' []
    × Freed (10 ∷ []) one_item.items s'.items
clear_lem_example = clear_lem by_length one_item 10 [] one_item-IsValid

destroyed_table :
    (s' : State) × (hashtable_destroy true one_item ≡ some (pos 0, s'))
    × (s'.table.buckets ≡ none)
    × Freed (10 ∷ []) one_item.items s'.items
destroyed_table = destroy_lem by_length one_item 10 [] one_item-IsValid

abbrev freed_at : Ptr → Option (Code × State) → Bool
freed_at p none = false
freed_at p (some (c, s)) = not (s.items.live p)

-- The callback that frees its item.
abbrev free_it : ApplyFunc
free_it p s = some (true, hashitem_free true p s)

free_it-Spares : Spares free_it (10 ∷ []) one_item
free_it-Spares = λ r s' e. ((λ q m. cc), tt)

hashtable_apply-visit_example :
    hashtable_apply true (some free_it) 2 one_item ≡ apply_end (visit free_it (10 ∷ []) one_item)
hashtable_apply-visit_example =
    hashtable_apply-visit by_length free_it one_item (10 ∷ []) 2 one_item-IsValid free_it-Spares
      (omega arith)

apply_frees : freed_at 10 (hashtable_apply true (some free_it) 2 one_item) ≡ true
unfolding hashtable_apply apply_loop hashitem_free
apply_frees = refl
