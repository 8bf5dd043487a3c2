-- ===== src/ResourceCache/Tests.antt =====
-- The resource cache at concrete inputs: runs of it, and the theorems at them.
use native.Mathlib.Decide.{ℕ_discrete}
use cclab.Base.{
  ℕ, is_some, ◌-◌, ◌≡◌, refl, true, false, none, some, List, [], ◌∷◌, if◌then◌else◌, leb, arith,
}
use cclab.Base.Int.{pos, negsuc}
use cclab.Base.Pointers.{Ptr}
use cclab.ResourceCache.Store.{
  Clock, Items, Cache, lru_head, is_linked, insert_to_lru, remove_from_lru, move_to_lru_head,
}
use cclab.ResourceCache.Ops
use cclab.ResourceCache.Ops.{new_cache, evict, destroy, destroy_items}
use cclab.ResourceCache.Spec
use cclab.ResourceCache.Valid.{IsValid, entries}
use cclab.ResourceCache.Reads.{get_refines}
use cclab.ResourceCache.History.{
  Call, get, set, run, run_entries, calls_refines, set_refines, new_cache-IsValid, new_cache-zero,
}

-- A clock that counts seconds.
abbrev seconds_clock : Clock
seconds_clock = record {
  Time = ℕ;
  seconds = λ a b. if leb a b then pos (b - a) else negsuc (a - b - 1);
}

abbrev heap : Items ℕ ℕ ℕ
heap = record {
  allocated = λ p. false;
  key = λ p. 0;
  res = λ p. 0;
  last_modified = λ p. 0;
  prev = λ p. 0;
  next = λ p. 0;
  top = 2;
}

abbrev two : Cache ℕ ℕ ℕ
two = new_cache ℕ_discrete seconds_clock (pos 2) (pos 30) heap

two-IsValid : IsValid 2 two []
two-IsValid = new_cache-IsValid ℕ_discrete seconds_clock 2 (pos 30) heap (omega arith) (omega arith)

-- Key 7 is read before a third key comes, and goes all the same; key 8 is too old at last.
abbrev calls : List (Call ℕ ℕ ℕ)
calls =
    set 7 70 0 ∷ set 8 80 1 ∷ get 7 2 ∷ set 9 90 3 ∷ get 7 4 ∷ get 8 30 ∷ get 8 31 ∷ get 9 32 ∷ []

replies :
    run ℕ_discrete seconds_clock calls two ≡ some (some 70 ∷ none ∷ some 80 ∷ none ∷ some 90 ∷ [])
unfolding run Ops.get Ops.set evict new_cache insert_to_lru remove_from_lru move_to_lru_head
    ℕ_discrete
replies = refl

calls_refines_example :
    run ℕ_discrete seconds_clock calls two
    ≡ some (run_entries ℕ_discrete seconds_clock 2 two.expire_seconds calls (entries two.items []))
calls_refines_example = calls_refines ℕ_discrete seconds_clock calls two [] two-IsValid

-- The cache after key 7 is set.
abbrev after_set :
    (c' : Cache ℕ ℕ ℕ) × (ps' : List Ptr) × (Ops.set ℕ_discrete seconds_clock 7 70 3 two
      ≡ some (true, c'))
    × IsValid 2 c' ps'
    × (entries c'.items ps' ≡ Spec.set ℕ_discrete 2 7 70 3 (entries two.items []))
    × (c'.expire_seconds ≡ two.expire_seconds)
after_set = set_refines ℕ_discrete seconds_clock two [] 7 70 3 two-IsValid

get_at_two :
    Ops.get ℕ_discrete seconds_clock 7 20 after_set.0
    ≡ Spec.get ℕ_discrete seconds_clock after_set.0.expire_seconds 7 20
        (entries after_set.0.items after_set.1)
get_at_two = get_refines ℕ_discrete seconds_clock after_set.0 after_set.1 7 20 after_set.3

set_at_two :
    (c' : Cache ℕ ℕ ℕ) × (ps' : List Ptr) × (Ops.set ℕ_discrete seconds_clock 8 80 4 after_set.0
      ≡ some (true, c'))
    × IsValid 2 c' ps'
    × (entries c'.items ps' ≡ Spec.set ℕ_discrete 2 8 80 4 (entries after_set.0.items after_set.1))
    × (c'.expire_seconds ≡ after_set.0.expire_seconds)
set_at_two = set_refines ℕ_discrete seconds_clock after_set.0 after_set.1 8 80 4 after_set.3

new_cache-zero_example :
    let c = new_cache ℕ_discrete seconds_clock (pos 0) (pos 30) heap in
    (c.items.prev lru_head ≡ lru_head)
    × (is_linked c.items (c.items.prev lru_head) ≡ true)
    × (is_some (Ops.set ℕ_discrete seconds_clock 7 70 3 c) ≡ false)
new_cache-zero_example =
    new_cache-zero ℕ_discrete seconds_clock (pos 30) heap 7 70 3 (λ e. omega (arith, e))
