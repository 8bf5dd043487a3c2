-- ===== src/Hashtable/Init.antt =====
-- hashtable/hashtable.c: the table that `hashtable_init` leaves, and what may be done with it.
use cclab.Base.{ℕ, ◌≡◌, refl, not, ◌||◌, ◌==◌, is_some, true, false, none, some, List, [], arith}
use cclab.Base.Int.{minus_one}
use cclab.Hashtable.Store.{State, Code, hashtable_init}
use cclab.Hashtable.Traverse.{hashtable_clear, hashtable_destroy}
use cclab.Hashtable.Valid.{IsValid, empty-IsValid}

-- Where `calloc` grants the buckets, `hashtable_init` returns HT_OK and leaves a valid table with no
-- item; where it does not, the result is HT_OUT_OF_MEMORY and the table has no buckets.
pub init_lem :
    (hash : List ℕ → ℕ → ℕ → ℕ) (s : State)
    → ((hashtable_init true true s).0 ≡ Code.ok)
      × IsValid hash (hashtable_init true true s).1 []
      × ((hashtable_init true false s).0 ≡ Code.out_of_memory)
      × ((hashtable_init true false s).1.table.buckets ≡ none)
unfolding hashtable_init
init_lem hash s =
    (refl, empty-IsValid hash (hashtable_init true true s).1 refl refl refl refl, refl, refl)

-- `hashtable_clear` and `hashtable_destroy` refuse a valid table that holds no item, and change
-- nothing: its buckets stay allocated.
pub destroy_empty :
    (hash : List ℕ → ℕ → ℕ → ℕ) (s : State)
    → IsValid hash s []
    → (hashtable_clear true s ≡ some (minus_one, s))
      × (hashtable_destroy true s ≡ some (minus_one, s))
unfolding hashtable_clear hashtable_destroy
destroy_empty hash s v =
    let t : (not (is_some s.table.buckets) || (s.table.head == 0 || s.table.tail == 0)) ≡ true =
      ground (arith, v.links.0) in
    rw t (refl, refl)
