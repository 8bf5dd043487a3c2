-- ===== src/ResourceCache/Valid.antt =====
-- resource_cache/resource_cache.h: the invariant of a cache, and the entries that it holds.
use mathlib.Core.Logic.{if_pos, if_neg}
use cclab.Base.{
  ℕ, ◌<◌, ◌≤◌, ◌≡◌, refl, ap, ◌≢◌, true, false, none, some, List, [], ◌∷◌, ◌==◌, length, arith,
}
use cclab.Base.Int.{pos}
use cclab.Base.Pointers.{Ptr, has, Distinct, delete}
use cclab.Base.Ring.{Seg, last_or, last-has}
use cclab.ResourceCache.Store.{Items, Cache, lru_head}
use cclab.ResourceCache.Spec.{Entries, find, remove, drop_last}

module _ {K V T : Type 0} where
  abbrev pub entry : Items K V T → Ptr → K × V × T
  entry h p = (h.key p, h.res p, h.last_modified p)

  abbrev pub entries : Items K V T → List Ptr → Entries K V T
  entries h [] = []
  entries h (p ∷ ps) = entry h p ∷ entries h ps

  -- The cache holds the items `ps` in the order of its list: they form a ring with `lru_head_`, the map
  -- has exactly them, each under its key, and there are at most `cap`, the capacity.
  pub record IsValid (cap : ℕ) (c : Cache K V T) (ps : List Ptr) : Type 0 where
    pub ring : Seg c.items.next c.items.prev lru_head ps lru_head
    pub distinct : Distinct (lru_head ∷ ps)
    pub allocated : (p : Ptr) → has p ps ≡ true → c.items.allocated p ≡ true
    pub given : (p : Ptr) → has p ps ≡ true → p < c.items.top
    pub member : lru_head < c.items.top
    pub not_null : has 0 ps ≡ false
    pub mapped :
        (k : K) (p : Ptr) → c.cache_map k ≡ some p → (has p ps ≡ true) × (c.items.key p ≡ k)
    pub keyed : (p : Ptr) → has p ps ≡ true → c.cache_map (c.items.key p) ≡ some p
    pub counted : c.size ≡ length ps
    pub capacity : c.capacity ≡ pos cap
    pub within : length ps ≤ cap
    pub positive : 0 < cap

  pub length-entries : (h : Items K V T) (ps : List Ptr) → length (entries h ps) ≡ length ps
  length-entries h [] = refl
  length-entries h (p ∷ ps) = omega (arith, length-entries h ps)

  pub entries-eq :
      (h h' : Items K V T) (ps : List Ptr)
      → ((p : Ptr) → has p ps ≡ true → entry h' p ≡ entry h p)
      → entries h' ps ≡ entries h ps
  entries-eq h h' [] same = refl
  entries-eq h h' (p ∷ ps) same =
      rw (same p (ground arith), entries-eq h h' ps λ q m. same q (ground arith))

  pub entries-delete_last :
      (h : Items K V T) (p : Ptr) (ps : List Ptr)
      → Distinct (p ∷ ps)
      → entries h (delete (last_or p ps) (p ∷ ps)) ≡ drop_last (entries h (p ∷ ps))
  entries-delete_last h p [] d = ground arith
  entries-delete_last h p (q ∷ ps) d =
      let z : (last_or q ps == p) ≡ false = ground (arith, last-has q ps) in
      rw z (ap (λ (l : Entries K V T). entry h p ∷ l) (entries-delete_last h q ps d.1))

  module _ (dec : Discrete K) (h : Items K V T) (k : K) where
    pub find-none :
        (ps : List Ptr)
        → ((p : Ptr) → has p ps ≡ true → h.key p ≢ k)
        → find dec k (entries h ps) ≡ none
    find-none [] out = refl
    find-none (p ∷ ps) out =
        ground (arith, out p (ground arith), find-none ps λ q m. out q (ground arith))

    pub find-some :
        (p : Ptr) (ps : List Ptr)
        → has p ps ≡ true
        → h.key p ≡ k
        → ((q : Ptr) → has q ps ≡ true → h.key q ≡ k → q ≡ p)
        → (find dec k (entries h ps) ≡ some (h.res p, h.last_modified p))
          × (remove dec k (entries h ps) ≡ entries h (delete p ps))
    find-some p [] m e only = cc
    find-some p (q ∷ ps) m e only = elim (dec (h.key q) k) [
      | yes y ↦
          let z : (p == q) ≡ true = ground (arith, only q (ground arith) y) in
          rw (if_pos _ y, z) (ground (arith, only q (ground arith) y))
      | no n ↦
          let z : (p == q) ≡ false = ground arith in
          let (f, r) = find-some p ps (ground arith) e λ q' m' e'. only q' (ground arith) e' in
          rw (if_neg _ n, if_neg _ n, z) (f, ap (λ (l : Entries K V T). entry h q ∷ l) r)
    ]
