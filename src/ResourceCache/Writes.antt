-- ===== src/ResourceCache/Writes.antt =====
-- resource_cache/resource_cache.h: `Set` under a new key: the rear item of a full cache is evicted, then an
-- item is added.
use mathlib.Core.Logic.{ite, if_pos, if_neg}
use cclab.Base.{
  ℕ, ◌+◌, ◌<◌, ◌≡◌, refl, sym, ◌∙◌, ap, ◌≢◌, inl, inr, true, false, ◌&&◌, none, some, List, ◌∷◌,
  ◌==◌, length, Bool-cases, arith,
}
use cclab.Base.Pointers.{Ptr, update, has, delete, has-delete, has-delete_inv, length-delete}
use cclab.Base.Ring.{Seg-frame, last_or, last-has, Seg-prev, unlink-Seg, front-Seg}
use cclab.ResourceCache.Store.{
  Clock, Cache, lru_head, is_linked, unlink, link_front, insert_to_lru, remove_from_lru, new_item,
}
use cclab.ResourceCache.Ops.{eq_size, erase, evict, add}
use cclab.ResourceCache.Reads.{one_key, no_key}
use cclab.ResourceCache.Spec.{drop_last}
use cclab.ResourceCache.Valid.{IsValid, entries, entries-eq, entries-delete_last}
use cclab.ResourceCache.Refresh.{linked_lem, Distinct-rest}

module _ {K V : Type 0} (dec : Discrete K) (clock : Clock) where
  open clock use {Time}

  module _ {cap : ℕ} (c : Cache K V Time) (p : Ptr) (ps : List Ptr)
      (v : IsValid cap c (p ∷ ps)) where
    abbrev pub rear : Ptr
    rear = last_or p ps

    abbrev pub evicted : Cache K V Time
    evicted = record (erase dec clock (c.items.key rear) c) {
      items = record (unlink rear c.items) { allocated = update c.items.allocated rear false };
    }

    pub evicted-IsValid : IsValid cap evicted (delete rear (p ∷ ps))
    evicted-IsValid =
        let m : has rear (p ∷ ps) ≡ true = last-has p ps in
        let back : (q : Ptr)
            → has q (delete rear (p ∷ ps)) ≡ true
            → (q ≢ rear) × (has q (p ∷ ps) ≡ true) =
          λ q i. has-delete_inv q rear (p ∷ ps) v.distinct.1 i in
        let mapped_rear : c.cache_map (c.items.key rear) ≡ some rear = v.keyed rear m in
        record {
          ring = unlink-Seg c.items.next c.items.prev lru_head (p ∷ ps) rear v.distinct m v.ring;
          distinct = Distinct-rest (p ∷ ps) rear v.distinct m;
          allocated = λ q i. let (ne, i') = back q i in ground (arith, v.allocated q i');
          given = λ q i. v.given q (back q i).1;
          member = v.member;
          not_null = has-delete 0 rear (p ∷ ps) (ground (arith, v.not_null)) ∙ v.not_null;
          mapped = λ j q e. elim (dec j (c.items.key rear)) [
            | yes y ↦ cc (rw (if_pos _ y) at e)
            | no n ↦
                let (i, f) = v.mapped j q (rw (if_neg _ n) at e) in
                let ne : q ≢ rear = λ g. n (sym f ∙ ap c.items.key g) in
                (has-delete q rear (p ∷ ps) ne ∙ i, f)
          ];
          keyed = λ q i.
              let (ne, i') = back q i in
              let other : c.items.key q ≢ c.items.key rear = λ f.
                ne (one_key dec clock c (p ∷ ps) (c.items.key rear) rear v mapped_rear q i' f) in
              rw (if_neg _ other) (v.keyed q i');
          counted = rw mapped_rear (omega (arith, v.counted, length-delete rear (p ∷ ps) m));
          capacity = v.capacity;
          within = omega (arith, v.within, length-delete rear (p ∷ ps) m);
          positive = v.positive;
        }

    pub evict_full : length (p ∷ ps) ≡ cap → evict dec clock c ≡ some evicted
    unfolding evict remove_from_lru
    evict_full full =
        let at : c.items.prev lru_head ≡ rear =
          Seg-prev c.items.next c.items.prev lru_head (p ∷ ps) lru_head v.ring in
        let test : eq_size c.size c.capacity ≡ true = ground (arith, v.counted, v.capacity) in
        let m : has rear (p ∷ ps) ≡ true = last-has p ps in
        let safe : (is_linked c.items rear && c.items.allocated rear) ≡ true =
          ground (arith, linked_lem dec clock c (p ∷ ps) rear v m, v.allocated rear m) in
        rw (at, test, safe) refl

    pub evicted-entries :
        entries evicted.items (delete rear (p ∷ ps)) ≡ drop_last (entries c.items (p ∷ ps))
    evicted-entries =
        entries-eq c.items evicted.items (delete rear (p ∷ ps)) (λ q i. refl)
        ∙ entries-delete_last c.items p ps v.distinct.1

  module _ {cap : ℕ} (c : Cache K V Time) (ps : List Ptr) (k : K) (r : V) (now : Time)
      (v : IsValid cap c ps) where
    abbrev pub added : Cache K V Time
    added =
        let q = c.items.top in
        record c {
          cache_map = λ j. ite (dec j k) (some q) (c.cache_map j);
          size = elim (c.cache_map k) [ none ↦ c.size + 1 | some _ ↦ c.size ];
          items = link_front q (new_item k r now c.items);
        }

    outside : has c.items.top (lru_head ∷ ps) ≡ false
    outside = elim (Bool-cases (has c.items.top ps)) [
      | inl y ↦ absurd (omega (arith, v.given c.items.top y))
      | inr z ↦ ground (arith, v.member)
    ]

    pub added-IsValid :
        c.cache_map k ≡ none → length ps < cap → IsValid cap added (c.items.top ∷ ps)
    added-IsValid e room =
        let out : has c.items.top (lru_head ∷ ps) ≡ false = outside in
        let old : (q : Ptr) → has q ps ≡ true → (q == c.items.top) ≡ false =
          λ q i. ground (arith, v.given q i) in
        let new = new_item k r now c.items in
        record {
          ring = front-Seg new.next new.prev lru_head ps c.items.top v.distinct out (
              Seg-frame c.items.next c.items.prev new.next new.prev lru_head ps lru_head
                (ground arith) (ground arith)
                (λ q i. (ground (arith, old q i), ground (arith, old q i))) v.ring);
          distinct = (ground (arith, v.distinct), (ground arith, v.distinct.1));
          allocated = λ q i. ground (arith, v.allocated q);
          given = λ q i. ground (arith, v.given q);
          member = omega (arith, v.member);
          not_null = ground (arith, v.member, v.not_null);
          mapped = λ j q f. elim (dec j k) [
            | yes y ↦ let g : c.items.top ≡ q = cc (rw (if_pos _ y) at f) in ground arith
            | no n ↦
                let (i, g) = v.mapped j q (rw (if_neg _ n) at f) in
                (ground arith, ground (arith, old q i))
          ];
          keyed = λ q i. elim (Bool-cases (q == c.items.top)) [
            | inl y ↦
                let g : q ≡ c.items.top = ground arith in
                let self : ite (dec k k) (some c.items.top) (c.cache_map k) ≡ some c.items.top =
                  if_pos (dec k k) refl _ _ in
                rw y (self ∙ ap some (sym g))
            | inr z ↦
                let i' : has q ps ≡ true = ground arith in
                let g = no_key dec clock c ps k v e q i' in
                let skip : ite (dec (c.items.key q) k) (some c.items.top)
                      (c.cache_map (c.items.key q))
                    ≡ c.cache_map (c.items.key q) =
                  if_neg (dec (c.items.key q) k) g _ _ in
                rw z (skip ∙ v.keyed q i')
          ];
          counted = rw e (omega (arith, v.counted));
          capacity = v.capacity;
          within = omega (arith, room);
          positive = v.positive;
        }

    pub add_lem : c.cache_map k ≡ none → add dec clock k r now (some c) ≡ some (true, added)
    unfolding insert_to_lru
    add_lem e =
        let some_address : (c.items.top == 0) ≡ false = ground (arith, v.member) in
        rw some_address refl

    pub added-entries : entries added.items (c.items.top ∷ ps) ≡ (k, r, now) ∷ entries c.items ps
    added-entries =
        let rest : entries added.items ps ≡ entries c.items ps =
          entries-eq c.items added.items ps λ q i. ground (arith, v.given q i) in
        rw rest (ground arith)
