-- ===== src/Hashtable/Remove.antt =====
-- hashtable/hashtable.c: `hashtable_remove` keeps the invariant and takes the item out.
use mathlib.Core.Path.{subst}
use cclab.Base.{
  ℕ, ◌≡◌, refl, sym, ◌∙◌, ap, ◌≢◌, ◌⊎◌, inl, inr, true, false, none, some, List, ◌==◌, arith,
}
use cclab.Hashtable.Store.{Ptr, State, Code, has_key}
use cclab.Hashtable.Lists.{has, delete}
use cclab.Hashtable.Relink.{next_mem, prev_mem, ne-zero_of_mem}
use cclab.Hashtable.Lookup.{
  Place, bucket, rounds, bucket_of, neighbours, remove_found, remove_in, hashtable_remove,
}
use cclab.Hashtable.Before.{Found, place_first, before_loop_lem, place_first-Found}
use cclab.Hashtable.Detach.{removed, removed-IsValid, detach_item-removed}
use cclab.Hashtable.Valid.{
  find_first, ReadsKey, IsValid, find_first_cases, bucket-has_key, first-chain, length-chain,
}

module _ (hash : List ℕ → ℕ → ℕ → ℕ) (reads : ReadsKey hash) where
  remove_run :
      (s : State) (ps : List Ptr) (v : IsValid hash s ps) (key : List ℕ) (nkey : ℕ)
      → nkey ≢ 0
      → let i = bucket_of hash key nkey in
        hashtable_remove hash true (some key) nkey true s
        ≡ remove_found hash
            (some
              (place_first s.items key nkey (bucket i) (v.chain i), find_first s.items key nkey ps))
            v.b
            s
  unfolding hashtable_remove
  remove_run s ps v key nkey ne =
      let i : ℕ = bucket_of hash key nkey in
      let e : (nkey == 0) ≡ false = ground arith in
      rw e (
        ap (λ o. remove_in hash o key nkey s) v.table
        ∙ ap (λ r. remove_found hash r v.b s)
            (before_loop_lem (rounds s.table) s.items key nkey (bucket i) (v.b i) (v.chain i)
                (omega (arith, length-chain hash reads s ps v i, v.count)) (v.chains i)
                (λ q m. v.live q (v.chained i q m).0)
              ∙ ap (λ r. some (place_first s.items key nkey (bucket i) (v.chain i), r))
                  (first-chain hash reads s ps v key nkey)))

  neighbours-live :
      (s : State) (ps : List Ptr) (v : IsValid hash s ps) (r : Ptr)
      → has r ps ≡ true
      → neighbours hash s.items r ≡ true
  neighbours-live s ps v r m = ground (
    arith,
    next_mem s.items.next s.items.prev 0 s.table.head ps s.table.tail r v.links m,
    prev_mem s.items.next s.items.prev 0 s.table.head ps s.table.tail r v.links m,
    v.live (s.items.next r),
    v.live (s.items.prev r),
  )

  remove_found-none :
      (at : Place) (r : Ptr) (b : ℕ → Ptr) (s : State)
      → r ≡ 0
      → remove_found hash (some (at, r)) b s ≡ some (Code.not_found, none, s)
  remove_found-none at r b s e = let z : (r == 0) ≡ true = ground arith in rw z

  remove_found-some :
      (at : Place) (r : Ptr) (b : ℕ → Ptr) (s : State)
      → r ≢ 0
      → neighbours hash s.items r ≡ true
      → remove_found hash (some (at, r)) b s ≡ some (Code.ok, some r, removed b at r s)
  remove_found-some at r b s ne near =
      let z : (r == 0) ≡ false = ground arith in
      rw (z, near) (ap (λ t. some (Code.ok, some r, t)) (detach_item-removed hash reads b at r s))

  -- From a valid table `hashtable_remove` takes the one item with the key: it is handed to the caller,
  -- the result is HT_OK, and the table is valid and holds the others in their order. Where no item has
  -- the key, the result is HT_NOT_FOUND, and nothing is changed or handed over.
  pub remove_refines :
      (s : State) (ps : List Ptr) (key : List ℕ) (nkey : ℕ)
      → IsValid hash s ps
      → nkey ≢ 0
      → let r = find_first s.items key nkey ps in
        ((r ≡ 0)
          × (hashtable_remove hash true (some key) nkey true s ≡ some (Code.not_found, none, s)))
        ⊎ ((has r ps ≡ true)
            × (has_key s.items key nkey r ≡ true)
            × ((s' : State) × (hashtable_remove hash true (some key) nkey true s
                  ≡ some (Code.ok, some r, s'))
                × (s'.items.key ≡ s.items.key)
                × (s'.items.key_length ≡ s.items.key_length)
                × IsValid hash s' (delete r ps)))
  remove_refines s ps key nkey v ne =
      let i : ℕ = bucket_of hash key nkey in
      let at : Place = place_first s.items key nkey (bucket i) (v.chain i) in
      let r : Ptr = find_first s.items key nkey ps in
      elim (find_first_cases s.items key nkey ps) [
        | inl (e, free) ↦ inl (e, remove_run s ps v key nkey ne ∙ remove_found-none at r v.b s e)
        | inr (m, k) ↦
            let r0 : r ≢ 0 =
              ne-zero_of_mem s.items.next s.items.prev 0 s.table.head ps s.table.tail r v.links m in
            let same = first-chain hash reads s ps v key nkey in
            let place : Found (bucket i) (v.chain i) at r =
              subst (Found (bucket i) (v.chain i) at) same (
                place_first-Found s.items key nkey (bucket i) (v.chain i) (v.chain_distinct i)
                  (λ e. r0 (sym same ∙ e))) in
            let inside : has r (v.chain i) ≡ true =
              ap (λ j. has r (v.chain j)) (bucket-has_key hash s.items key nkey r reads k)
              ∙ v.listed r m in
            inr (
              m,
              k,
              (
                removed v.b at r s,
                remove_run s ps v key nkey ne
                    ∙ remove_found-some at r v.b s r0 (neighbours-live s ps v r m),
                refl,
                refl,
                removed-IsValid hash reads s ps v key nkey r at place inside,
              ),
            )
      ]
