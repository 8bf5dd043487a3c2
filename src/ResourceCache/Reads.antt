-- ===== src/ResourceCache/Reads.antt =====
-- resource_cache/resource_cache.h: `Get` against the entries that a cache holds.
use cclab.Base.{ℕ, ◌≡◌, sym, ◌∙◌, ap, ◌≢◌, inl, inr, true, none, some, List, Option-cases}
use cclab.Base.Pointers.{Ptr, has}
use cclab.ResourceCache.Store.{Clock, Cache}
use cclab.ResourceCache.Spec
use cclab.ResourceCache.Spec.{find}
use cclab.ResourceCache.Ops.{get}
use cclab.ResourceCache.Valid.{IsValid, entries, find-none, find-some}

module _ {K V : Type 0} (dec : Discrete K) (clock : Clock) where
  open clock use {Time}

  -- Items with one key are one item.
  pub one_key :
      {cap : ℕ} (c : Cache K V Time) (ps : List Ptr) (k : K) (p : Ptr)
      → IsValid cap c ps
      → c.cache_map k ≡ some p
      → (q : Ptr) → has q ps ≡ true
      → c.items.key q ≡ k
      → q ≡ p
  one_key c ps k p v e q m f =
      let g : c.cache_map k ≡ some q = ap c.cache_map (sym f) ∙ v.keyed q m in cc

  pub no_key :
      {cap : ℕ} (c : Cache K V Time) (ps : List Ptr) (k : K)
      → IsValid cap c ps
      → c.cache_map k ≡ none
      → (q : Ptr) → has q ps ≡ true
      → c.items.key q ≢ k
  no_key c ps k v e q m f =
      let g : c.cache_map k ≡ some q = ap c.cache_map (sym f) ∙ v.keyed q m in cc

  -- `Get` of a valid cache gives the resource that was set last under the key, while the cache holds it
  -- and its age in whole seconds is below `expire_seconds`, and else the null pointer.
  pub get_refines :
      {cap : ℕ} (c : Cache K V Time) (ps : List Ptr) (k : K) (now : Time)
      → IsValid cap c ps
      → get dec clock k now c ≡ Spec.get dec clock c.expire_seconds k now (entries c.items ps)
  unfolding get Spec.get
  get_refines c ps k now v = elim (Option-cases (c.cache_map k)) [
    | inl e ↦ rw (e, find-none dec c.items k ps (no_key c ps k v e))
    | inr (p, e) ↦
        let (m, f) = v.mapped k p e in
        rw (e, (find-some dec c.items k p ps m f (one_key c ps k p v e)).0)
  ]
