-- ===== src/ResourceCache/Refresh.antt =====
-- resource_cache/resource_cache.h: `Set` under a key that the cache has.
use cclab.Base.{ℕ, ◌≡◌, sym, ◌∙◌, ◌≢◌, true, false, some, List, ◌∷◌, arith}
use cclab.Base.Pointers.{
  Ptr, update, has, Distinct, delete, has-delete, has-delete_self, has-delete_inv, has-moved,
  Distinct-delete, length-delete,
}
use cclab.Base.Ring.{Seg-next_mem, Seg-prev_mem, unlink-Seg, front-Seg}
use cclab.ResourceCache.Store.{Clock, Cache, lru_head, is_linked, unlink, link_front}
use cclab.ResourceCache.Reads.{one_key}
use cclab.ResourceCache.Spec.{remove}
use cclab.ResourceCache.Valid.{IsValid, entries, entries-eq, find-some}

-- A list without one of its items is a list.
pub Distinct-rest :
    (ps : List Ptr) (p : Ptr)
    → Distinct (lru_head ∷ ps)
    → has p ps ≡ true
    → Distinct (lru_head ∷ delete p ps)
Distinct-rest ps p d m = (ground (arith, has-delete lru_head p ps), Distinct-delete p ps d.1)

module _ {K V : Type 0} (dec : Discrete K) (clock : Clock) where
  open clock use {Time}

  pub linked_lem :
      {cap : ℕ} (c : Cache K V Time) (ps : List Ptr) (p : Ptr)
      → IsValid cap c ps
      → has p ps ≡ true
      → is_linked c.items p ≡ true
  linked_lem c ps p v m = ground (
    arith,
    v.not_null,
    Seg-next_mem c.items.next c.items.prev lru_head ps lru_head p v.ring,
    Seg-prev_mem c.items.next c.items.prev lru_head ps lru_head p v.ring,
  )

  module _ {cap : ℕ} (c : Cache K V Time) (ps : List Ptr) (k : K) (r : V) (now : Time)
      (v : IsValid cap c ps) where
    -- The item `p` of the key gets a new resource and time, and comes first.
    abbrev pub refreshed : Ptr → Cache K V Time
    refreshed p =
        let h = record c.items {
          res = update c.items.res p r;
          last_modified = update c.items.last_modified p now;
        } in
        record c { items = link_front p (unlink p h) }

    pub refreshed-IsValid :
        (p : Ptr) → has p ps ≡ true → IsValid cap (refreshed p) (p ∷ delete p ps)
    refreshed-IsValid p m =
        let ne : lru_head ≢ p = ground (arith, v.distinct) in
        let d : Distinct (lru_head ∷ delete p ps) = Distinct-rest ps p v.distinct m in
        let self : has p (delete p ps) ≡ false = has-delete_self p ps v.distinct.1 in
        let back : (q : Ptr) → has q (p ∷ delete p ps) ≡ true → has q ps ≡ true =
          λ q i. sym (has-moved q p ps v.distinct.1 m) ∙ i in
        record {
          ring =
              front-Seg (unlink p c.items).next (unlink p c.items).prev lru_head (delete p ps) p d
                (ground arith)
                (unlink-Seg c.items.next c.items.prev lru_head ps p v.distinct m v.ring);
          distinct = (ground (arith, d), (self, d.1));
          allocated = λ q i. v.allocated q (back q i);
          given = λ q i. v.given q (back q i);
          member = v.member;
          not_null = has-moved 0 p ps v.distinct.1 m ∙ v.not_null;
          mapped = λ j q e. let (i, f) = v.mapped j q e in (has-moved q p ps v.distinct.1 m ∙ i, f);
          keyed = λ q i. v.keyed q (back q i);
          counted = omega (arith, v.counted, length-delete p ps m);
          capacity = v.capacity;
          within = omega (arith, v.within, length-delete p ps m);
          positive = v.positive;
        }

    pub refreshed-entries :
        (p : Ptr)
        → c.cache_map k ≡ some p
        → entries (refreshed p).items (p ∷ delete p ps)
          ≡ (k, r, now) ∷ remove dec k (entries c.items ps)
    refreshed-entries p e =
        let (m, f) = v.mapped k p e in
        let rest : entries (refreshed p).items (delete p ps) ≡ entries c.items (delete p ps) =
          entries-eq c.items (refreshed p).items (delete p ps)
            λ q i. let (ne, _) = has-delete_inv q p ps v.distinct.1 i in ground arith in
        rw ((find-some dec c.items k p ps m f (one_key dec clock c ps k p v e)).1, ← rest)
          (ground arith)
