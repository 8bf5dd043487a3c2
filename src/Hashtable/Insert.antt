-- ===== src/Hashtable/Insert.antt =====
-- hashtable/hashtable.c: `hashtable_insert` keeps the invariant and appends the item.
use cclab.Base.{
  ℕ, ◌+◌, ◌^◌, ◌<◌, ◌≡◌, refl, ◌∙◌, ap, ◌≢◌, ◌⊎◌, inl, inr, true, false, ◌||◌, some, List, [], ◌∷◌,
  ◌++◌, ◌==◌, length, arith,
}
use cclab.Hashtable.Store.{Ptr, State, Code}
use cclab.Hashtable.Lists.{has}
use cclab.Hashtable.Append.{appended, append_item-appended, appended-IsValid, place, tail_cases}
use cclab.Hashtable.Relink.{ne-zero_of_mem}
use cclab.Hashtable.Lookup.{bucket_of, insert_found, insert_in, hashtable_insert}
use cclab.Hashtable.Valid.{find_first, ReadsKey, IsValid, find_first_cases, find_run}

module _ (hash : List ℕ → ℕ → ℕ → ℕ) (reads : ReadsKey hash) where
  insert_run :
      (s : State) (ps : List Ptr) (v : IsValid hash s ps) (hi : Ptr)
      → hi ≢ 0
      → s.items.live hi ≡ true
      → hashtable_insert hash true hi s
        ≡ insert_found hash
            (some (find_first s.items (s.items.key hi) (s.items.key_length hi) ps))
            v.b
            (bucket_of hash (s.items.key hi) (s.items.key_length hi))
            hi
            s
  unfolding hashtable_insert
  insert_run s ps v hi ne alive =
      let key : List ℕ = s.items.key hi in
      let nkey : ℕ = s.items.key_length hi in
      let i : ℕ = bucket_of hash key nkey in
      let h0 : (hi == 0) ≡ false = ground arith in
      rw (h0, alive)
        (ap (λ o. insert_in hash o hi s) v.table
          ∙ ap (λ r. insert_found hash r v.b i hi s) (find_run hash reads s ps v key nkey))

  insert_found-old :
      (r : Ptr) (b : ℕ → Ptr) (i : ℕ) (hi : Ptr) (s : State)
      → r ≢ 0
      → insert_found hash (some r) b i hi s ≡ some (Code.exists, s)
  insert_found-old r b i hi s ne = let e : (r == 0) ≡ false = ground arith in rw e

  insert_found-new :
      (r : Ptr) (b : ℕ → Ptr) (i : ℕ) (hi : Ptr) (s : State)
      → r ≡ 0
      → (s.table.tail == 0 || s.items.live s.table.tail) ≡ true
      → insert_found hash (some r) b i hi s ≡ some (Code.ok, appended b i hi s)
  insert_found-new r b i hi s e ok =
      let z : (r == 0) ≡ true = ground arith in
      rw (z, ok) (ap (λ t. some (Code.ok, t)) (append_item-appended hash reads b i hi s))

  -- Into a valid table `hashtable_insert` puts an allocated item that is not in it: if an item with
  -- its key is there, the table stays and the result is HT_EXISTS; else the result is HT_OK, and the
  -- table is valid and holds the new item behind the others.
  pub insert_refines :
      (s : State) (ps : List Ptr) (hi : Ptr)
      → IsValid hash s ps
      → hi ≢ 0
      → s.items.live hi ≡ true
      → has hi ps ≡ false
      → length ps + 1 < 2 ^ 32
      → let r = find_first s.items (s.items.key hi) (s.items.key_length hi) ps in
        ((r ≢ 0) × (hashtable_insert hash true hi s ≡ some (Code.exists, s)))
        ⊎ ((r ≡ 0)
            × ((s' : State) × (hashtable_insert hash true hi s ≡ some (Code.ok, s'))
                × (s'.items.key ≡ s.items.key)
                × (s'.items.key_length ≡ s.items.key_length)
                × IsValid hash s' (ps ++ (hi ∷ []))))
  unfolding place
  insert_refines s ps hi v ne alive fresh room =
      let key : List ℕ = s.items.key hi in
      let nkey : ℕ = s.items.key_length hi in
      let i : ℕ = bucket_of hash key nkey in
      let r : Ptr = find_first s.items key nkey ps in
      let tail_ok : (s.table.tail == 0 || s.items.live s.table.tail) ≡ true = ground (
        arith,
        tail_cases s.items.next s.items.prev s.table.head ps s.table.tail v.links,
        v.live s.table.tail,
      ) in
      elim (find_first_cases s.items key nkey ps) [
        | inl (e, free) ↦ inr (
          e,
          (
            appended v.b i hi s,
            insert_run s ps v hi ne alive ∙ insert_found-new r v.b i hi s e tail_ok,
            refl,
            refl,
            appended-IsValid hash reads s ps v hi ne alive fresh free room,
          ),
        )
        | inr (m, k) ↦
            let r0 : r ≢ 0 =
              ne-zero_of_mem s.items.next s.items.prev 0 s.table.head ps s.table.tail r v.links m in
            inl (r0, insert_run s ps v hi ne alive ∙ insert_found-old r v.b i hi s r0)
      ]
