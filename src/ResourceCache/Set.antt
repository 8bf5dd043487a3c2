-- ===== src/ResourceCache/Set.antt =====
-- resource_cache/resource_cache.h: `Set` against the entries that a cache holds.
use cclab.Base.{
  ℕ, ◌<◌, ◌≡◌, refl, sym, ◌∙◌, ap, inl, inr, true, false, none, some, List, [], ◌∷◌, ◌==◌, length,
  Option-cases, arith,
}
use cclab.Base.Pointers.{Ptr, delete, length-delete}
use cclab.Base.Ring.{last-has}
use cclab.ResourceCache.Store.{Clock, Cache, is_linked, move_to_lru_head}
use cclab.ResourceCache.Ops.{eq_size, evict, add, put, set}
use cclab.ResourceCache.Reads.{one_key, no_key}
use cclab.ResourceCache.Spec.{Entries, find, remove, drop_last}
use cclab.ResourceCache.Valid.{IsValid, entries, find-some, find-none}
use cclab.ResourceCache.Refresh.{linked_lem}
use native.Mathlib.Decide.{ℕ_discrete}
use cclab.ResourceCache.Spec
use cclab.ResourceCache.Valid.{length-entries}
use cclab.ResourceCache.Refresh.{refreshed, refreshed-IsValid, refreshed-entries}
use cclab.ResourceCache.Writes.{
  rear, evicted, evicted-IsValid, evict_full, evicted-entries, added, added-IsValid, add_lem,
  added-entries,
}

module _ {K V : Type 0} (dec : Discrete K) (clock : Clock) where
  open clock use {Time}

  -- The entries after `Set`, and that it is done.
  pub record Stored (cap : ℕ) (c : Cache K V Time) (ps : List Ptr) (k : K) (r : V) (now : Time)
      : Type 0 where
    pub cache : Cache K V Time
    pub list : List Ptr
    pub done : set dec clock k r now c ≡ some (true, cache)
    pub valid : IsValid cap cache list
    pub stored : entries cache.items list ≡ Spec.set dec cap k r now (entries c.items ps)
    pub same_time : cache.expire_seconds ≡ c.expire_seconds

  -- A new key, in a cache that is not full.
  set_new :
      {cap : ℕ} (c : Cache K V Time) (ps : List Ptr) (k : K) (r : V) (now : Time)
      → IsValid cap c ps
      → c.cache_map k ≡ none
      → length ps < cap
      → Stored cap c ps k r now
  unfolding set evict Spec.set
  set_new {cap} c ps k r now v e room =
      let test : eq_size c.size c.capacity ≡ false = ground (arith, v.counted, v.capacity) in
      let space : (length (entries c.items ps) == cap) ≡ false =
        ground (arith, length-entries c.items ps) in
      record {
        cache = added dec clock c ps k r now v;
        list = c.items.top ∷ ps;
        done =
            ap (put dec clock k r now c) e
            ∙ ap (add dec clock k r now) (let h : evict dec clock c ≡ some c = rw test refl in h)
            ∙ add_lem dec clock c ps k r now v e;
        valid = added-IsValid dec clock c ps k r now v e room;
        stored =
            added-entries dec clock c ps k r now v
            ∙ sym (rw (find-none dec c.items k ps (no_key dec clock c ps k v e), space) refl);
        same_time = refl;
      }

  -- A new key, in a full cache.
  set_full :
      {cap : ℕ} (c : Cache K V Time) (p : Ptr) (ps : List Ptr) (k : K) (r : V) (now : Time)
      → IsValid cap c (p ∷ ps)
      → c.cache_map k ≡ none
      → length (p ∷ ps) ≡ cap
      → Stored cap c (p ∷ ps) k r now
  unfolding set Spec.set
  set_full {cap} c p ps k r now v e full =
      let d : Cache K V Time = evicted dec clock c p ps v in
      let qs : List Ptr = delete (rear dec clock c p ps v) (p ∷ ps) in
      let w : IsValid cap d qs = evicted-IsValid dec clock c p ps v in
      let e' : d.cache_map k ≡ none = ground arith in
      let space : (length (entries c.items (p ∷ ps)) == cap) ≡ true =
        ground (arith, length-entries c.items (p ∷ ps)) in
      let shorter : length qs < cap =
        omega (arith, length-delete (rear dec clock c p ps v) (p ∷ ps) (last-has p ps)) in
      record {
        cache = added dec clock d qs k r now w;
        list = d.items.top ∷ qs;
        done =
            ap (put dec clock k r now c) e
            ∙ ap (add dec clock k r now) (evict_full dec clock c p ps v full)
            ∙ add_lem dec clock d qs k r now w e';
        valid = added-IsValid dec clock d qs k r now w e' shorter;
        stored =
            added-entries dec clock d qs k r now w
            ∙ ap (λ (l : Entries K V Time). (k, r, now) ∷ l) (evicted-entries dec clock c p ps v)
            ∙ sym (
                rw (find-none dec c.items k (p ∷ ps) (no_key dec clock c (p ∷ ps) k v e), space)
                  refl);
        same_time = refl;
      }

  -- A key that the cache has.
  set_old :
      {cap : ℕ} (c : Cache K V Time) (ps : List Ptr) (k : K) (r : V) (now : Time) (p : Ptr)
      → IsValid cap c ps
      → c.cache_map k ≡ some p
      → Stored cap c ps k r now
  unfolding set move_to_lru_head Spec.set
  set_old {cap} c ps k r now p v e =
      let (m, f) = v.mapped k p e in
      let safe : is_linked c.items p ≡ true = linked_lem dec clock c ps p v m in
      record {
        cache = refreshed dec clock c ps k r now v p;
        list = p ∷ delete p ps;
        done = rw (e, safe) refl;
        valid = refreshed-IsValid dec clock c ps k r now v p m;
        stored =
            refreshed-entries dec clock c ps k r now v p e
            ∙ sym (rw (find-some dec c.items k p ps m f (one_key dec clock c ps k p v e)).0 refl);
        same_time = refl;
      }

  set_absent :
      {cap : ℕ} (c : Cache K V Time) (ps : List Ptr) (k : K) (r : V) (now : Time)
      → IsValid cap c ps
      → c.cache_map k ≡ none
      → Stored cap c ps k r now
  set_absent c [] k r now v e = set_new c [] k r now v e (omega (arith, v.positive))
  set_absent {cap} c (p ∷ ps) k r now v e = elim (ℕ_discrete (length (p ∷ ps)) cap) [
    | yes full ↦ set_full c p ps k r now v e full
    | no ne ↦ set_new c (p ∷ ps) k r now v e (omega (arith, v.within))
  ]

  pub set_lem :
      {cap : ℕ} (c : Cache K V Time) (ps : List Ptr) (k : K) (r : V) (now : Time)
      → IsValid cap c ps
      → Stored cap c ps k r now
  set_lem c ps k r now v = elim (Option-cases (c.cache_map k)) [
    | inr (p, e) ↦ set_old c ps k r now p v e
    | inl e ↦ set_absent c ps k r now v e
  ]
