-- ===== src/Hashtable/Detach.antt =====
-- hashtable/hashtable.c: what the end of `hashtable_remove` does to a valid table.
use mathlib.Core.Path.{subst}
use cclab.Base.{
  ℕ, ◌+◌, ◌-◌, ◌%◌, ◌^◌, ◌≡◌, refl, sym, ◌∙◌, ap, ◌≢◌, ◌⊎◌, inl, inr, true, false, Option, some,
  List, ◌==◌, if◌then◌else◌, arith, Bool-cases,
}
use cclab.Hashtable.Store.{Ptr, Items, State, update, set_h_next}
use cclab.Hashtable.Lists.{
  has, delete, Chain, Links, has-delete, has-delete_inv, Distinct-delete, length-delete,
  Chain-update,
}
use cclab.Hashtable.Relink.{ne-zero_of_mem, zero-not_mem, Links-delete}
use cclab.Hashtable.Lookup.{Place, bucket, link, bucket_of, store_place, unlink_item, detach_item}
use cclab.Hashtable.Before.{is_link, Found, Found-cases, Chain-delete}
use cclab.Hashtable.Valid.{ReadsKey, IsValid}

abbrev pub buckets_after : Option (ℕ → Ptr) → (ℕ → Ptr) → Place → Ptr → Option (ℕ → Ptr)
buckets_after o b (bucket i) q = some (update b i q)
buckets_after o b (link a) q = o

abbrev pub heads_after : (ℕ → Ptr) → Place → Ptr → ℕ → Ptr
heads_after b (bucket i) q = update b i q
heads_after b (link a) q = b

abbrev pub chain_after : (Ptr → Ptr) → Place → Ptr → Ptr → Ptr
chain_after n (bucket i) q = n
chain_after n (link a) q = update n a q

-- The state after a removal, field by field.
abbrev pub removed : (ℕ → Ptr) → Place → Ptr → State → State
removed b at r s = record {
  table = record s.table {
    buckets = buckets_after s.table.buckets b at (s.items.h_next r);
    head = if r == s.table.head then s.items.next r else s.table.head;
    tail = if r == s.table.tail then s.items.prev r else s.table.tail;
    hash_items = (s.table.hash_items + 2 ^ 32 - 1) % 2 ^ 32;
  };
  items = record s.items {
    next =
        update
          (if s.items.prev r == 0
            then s.items.next
            else update s.items.next (s.items.prev r) (s.items.next r))
          r 0;
    prev =
        update
          (if s.items.next r == 0
            then s.items.prev
            else update s.items.prev (s.items.next r) (s.items.prev r))
          r 0;
    h_next = update (chain_after s.items.h_next at (s.items.h_next r)) r 0;
  };
}

module _ (hash : List ℕ → ℕ → ℕ → ℕ) (reads : ReadsKey hash) where
  unlink_item_lem :
      (r : Ptr) (h : Items)
      → unlink_item hash r h ≡ record h {
        next = update (if h.prev r == 0 then h.next else update h.next (h.prev r) (h.next r)) r 0;
        prev = update (if h.next r == 0 then h.prev else update h.prev (h.next r) (h.prev r)) r 0;
      }
  unlink_item_lem r h =
      let e : (if r == h.prev r then h.next r else h.next r) ≡ h.next r = ground arith in
      elim (Bool-cases (h.prev r == 0)) [
        | inl y ↦ rw y (elim (Bool-cases (h.next r == 0)) [ inl y' ↦ rw y' | inr z' ↦ rw z' ])
        | inr z ↦ rw (z, e) (elim (Bool-cases (h.next r == 0)) [ inl y' ↦ rw y' | inr z' ↦ rw z' ])
      ]

  pub detach_item-removed :
      (b : ℕ → Ptr) (at : Place) (r : Ptr) (s : State)
      → detach_item hash r (store_place hash b at (s.items.h_next r) s) ≡ removed b at r s
  detach_item-removed b (bucket i) r s =
      ap (λ h. let t : State = record { table = (removed b (bucket i) r s).table; items = h } in t)
        (unlink_item_lem r (set_h_next r 0 s.items))
  detach_item-removed b (link a) r s =
      ap (λ h. let t : State = record { table = (removed b (link a) r s).table; items = h } in t)
        (unlink_item_lem r (set_h_next r 0 (set_h_next a (s.items.h_next r) s.items)))

  module _ (s : State) (ps : List Ptr) (v : IsValid hash s ps) (key : List ℕ) (nkey : ℕ) (r : Ptr)
      (at : Place)
      (place : Found (bucket (bucket_of hash key nkey)) (v.chain (bucket_of hash key nkey)) at r)
      (inside : has r (v.chain (bucket_of hash key nkey)) ≡ true) where
    home : ℕ
    home = bucket_of hash key nkey

    listed_r : has r ps ≡ true
    listed_r = (v.chained (bucket_of hash key nkey) r inside).0

    chain' : ℕ → List Ptr
    chain' = update v.chain home (delete r (v.chain home))

    -- An item is in one chain only.
    apart : (j : ℕ) (q : Ptr) → j ≢ home → has q (v.chain home) ≡ true → has q (v.chain j) ≡ false
    apart j q ne i = elim (Bool-cases (has q (v.chain j))) [
      | inl y ↦ absurd (ne (sym (v.chained j q y).1 ∙ (v.chained home q i).1))
      | inr z ↦ z
    ]

    -- Where the place is.
    Where : Place → Type 0
    Where pl =
        ((pl ≡ bucket home) × (v.b home ≡ r))
        ⊎ ((v.b home ≢ r) × ((a : Ptr) × (has a (v.chain home) ≡ true) × (pl ≡ link a)))

    located : Where at
    unfolding Where home
    located =
        Found-cases s.items.h_next (bucket home) (v.b home) (v.chain home) at r (v.chains home)
          place

    -- Buckets and chains other than the key's stay.
    heads_other :
        (pl : Place) (j : ℕ) (q : Ptr) → Where pl → j ≢ home → heads_after v.b pl q j ≡ v.b j
    unfolding Where
    heads_other pl j q (inl (e, _)) ne = ap (λ l. heads_after v.b l q j) e ∙ ground arith
    heads_other pl j q (inr (_, (a, _, e))) ne = ap (λ l. heads_after v.b l q j) e

    heads_home :
        (pl : Place) (q : Ptr)
        → Where pl
        → heads_after v.b pl q home ≡ (if v.b home == r then q else v.b home)
    unfolding Where
    heads_home pl q (inl (e, e')) = ap (λ l. heads_after v.b l q home) e ∙ ground arith
    heads_home pl q (inr (ne, (a, _, e))) = ap (λ l. heads_after v.b l q home) e ∙ ground arith

    chain_other :
        (pl : Place) (j : ℕ) (q : Ptr)
        → Where pl
        → j ≢ home
        → Chain (update (chain_after s.items.h_next pl q) r 0) (v.b j) (v.chain j)
    unfolding Where home
    chain_other pl j q (inl (e, _)) ne =
        subst (λ l. Chain (update (chain_after s.items.h_next l q) r 0) (v.b j) (v.chain j)) (sym e)
          (Chain-update s.items.h_next (v.b j) (v.chain j) r 0 (apart j r ne inside) (v.chains j))
    chain_other pl j q (inr (_, (a, i, e))) ne =
        subst (λ l. Chain (update (chain_after s.items.h_next l q) r 0) (v.b j) (v.chain j)) (sym e)
          (Chain-update (update s.items.h_next a q) (v.b j) (v.chain j) r 0 (apart j r ne inside)
            (Chain-update s.items.h_next (v.b j) (v.chain j) a q (apart j a ne i) (v.chains j)))

    after_link :
        (n : Ptr → Ptr) (pl : Place) (q w : Ptr)
        → w ≢ r
        → update (chain_after n pl q) r 0 w ≡ (if is_link pl w then q else n w)
    after_link n (bucket i) q w ne = ground arith
    after_link n (link a) q w ne = ground arith

    chains' :
        (j : ℕ)
        → Chain
            (update (chain_after s.items.h_next at (s.items.h_next r)) r 0)
            (heads_after v.b at (s.items.h_next r) j)
            (chain' j)
    unfolding chain' home
    chains' j = elim (Bool-cases (j == home)) [
      | inl y ↦
          let e : j ≡ home = ground arith in
          rw (y, e, heads_home at (s.items.h_next r) located)
            (Chain-delete s.items.h_next
              (update (chain_after s.items.h_next at (s.items.h_next r)) r 0) at r (bucket home)
              (v.b home) (v.chain home) (v.chains home) (v.chain_distinct home) (λ q i. refl) place
              (λ q i ne. after_link s.items.h_next at (s.items.h_next r) q ne))
      | inr z ↦
          let ne : j ≢ home = ground arith in
          rw (z, heads_other at j (s.items.h_next r) located ne)
            (chain_other at j (s.items.h_next r) located ne)
    ]

    tables :
        (pl : Place) (q : Ptr)
        → buckets_after s.table.buckets v.b pl q ≡ some (heads_after v.b pl q)
    tables (bucket i) q = refl
    tables (link a) q = v.table

    chained' :
        (j : ℕ) (p : Ptr)
        → has p (chain' j) ≡ true
        → (has p (delete r ps) ≡ true) × (bucket_of hash (s.items.key p) (s.items.key_length p) ≡ j)
    unfolding chain' home
    chained' j p m = elim (Bool-cases (j == home)) [
      | inl y ↦
          let e : j ≡ home = ground arith in
          let m' : has p (delete r (v.chain home)) ≡ true = rw y at m in
          let (ne, i) = has-delete_inv p r (v.chain home) (v.chain_distinct home) m' in
          (has-delete p r ps ne ∙ (v.chained home p i).0, (v.chained home p i).1 ∙ sym e)
      | inr z ↦
          let m' : has p (v.chain j) ≡ true = rw z at m in
          let ne : j ≢ home = ground arith in
          let out : has r (v.chain j) ≡ false = apart j r ne inside in
          let ne' : p ≢ r = ground arith in
          (has-delete p r ps ne' ∙ (v.chained j p m').0, (v.chained j p m').1)
    ]

    listed' :
        (p : Ptr)
        → has p (delete r ps) ≡ true
        → has p (chain' (bucket_of hash (s.items.key p) (s.items.key_length p))) ≡ true
    unfolding chain'
    listed' p m =
        let (ne, i) = has-delete_inv p r ps v.distinct m in
        let j : ℕ = bucket_of hash (s.items.key p) (s.items.key_length p) in
        elim (Bool-cases (j == home)) [
          | inl y ↦
              let e : j ≡ home = ground arith in
              rw y (
                has-delete p r (v.chain home) ne
                ∙ ap (λ k. has p (v.chain k)) (sym e)
                ∙ v.listed p i)
          | inr z ↦ rw z (v.listed p i)
        ]

    links' :
        let t = removed v.b at r s in
        Links t.items.next t.items.prev 0 t.table.head (delete r ps) t.table.tail
    links' =
        Links-delete s.items.next s.items.prev (removed v.b at r s).items.next
          (removed v.b at r s).items.prev r 0 s.table.head ps s.table.tail listed_r v.distinct
          (zero-not_mem s.items.next s.items.prev 0 s.table.head ps s.table.tail v.links)
          (λ q m ne.
            let q0 : q ≢ 0 =
              ne-zero_of_mem s.items.next s.items.prev 0 s.table.head ps s.table.tail q v.links m in
            (ground arith, ground arith))
          v.links

    pub removed-IsValid : IsValid hash (removed v.b at r s) (delete r ps)
    unfolding chain' home
    removed-IsValid = record {
      b = heads_after v.b at (s.items.h_next r);
      chain = chain';
      table = tables at (s.items.h_next r);
      chains = chains';
      chained = chained';
      listed = listed';
      chain_distinct = λ j. elim (Bool-cases (j == home)) [
        | inl y ↦ rw y (Distinct-delete r (v.chain home) (v.chain_distinct home))
        | inr z ↦ rw z (v.chain_distinct j)
      ];
      live = λ p m. v.live p (has-delete_inv p r ps v.distinct m).1;
      unique = λ key nkey p q mp mq.
          v.unique key nkey p q (has-delete_inv p r ps v.distinct mp).1
            (has-delete_inv q r ps v.distinct mq).1;
      distinct = Distinct-delete r ps v.distinct;
      links = links';
      count = omega (arith, length-delete r ps listed_r, v.count, v.small);
      small = omega (arith, length-delete r ps listed_r, v.small);
    }
