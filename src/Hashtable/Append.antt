-- ===== src/Hashtable/Append.antt =====
-- hashtable/hashtable.c: what the end of `hashtable_insert` does to a valid table.
use cclab.Base.{
  ℕ, zero, suc, ◌+◌, ◌%◌, ◌^◌, ◌<◌, ◌≡◌, refl, ◌≢◌, ◌⊎◌, inl, inr, true, false, some, List, [], ◌∷◌,
  ◌++◌, ◌==◌, if◌then◌else◌, length, arith, Bool-cases, length-append,
}
use cclab.Hashtable.Store.{Ptr, State, update, has_key, memcmp_eq}
use cclab.Hashtable.Lists.{has, Chain, Links, has-append, Distinct-append, Chain-update}
use cclab.Hashtable.Relink.{first_or, ne-zero_of_mem, last_mem, Links-snoc}
use cclab.Hashtable.Lookup.{bucket_of, append_item}
use cclab.Hashtable.Valid.{ReadsKey, IsValid}

-- Two lists of bytes that agree with a third agree.
pub memcmp_eq_join :
    (k a b : List ℕ) (n : ℕ)
    → memcmp_eq k a n ≡ true
    → memcmp_eq k b n ≡ true
    → memcmp_eq a b n ≡ true
unfolding memcmp_eq
memcmp_eq_join k a b zero h g = refl
memcmp_eq_join [] a b (suc n) h g = cc
memcmp_eq_join (x ∷ k) [] b (suc n) h g = cc
memcmp_eq_join (x ∷ k) (y ∷ a) [] (suc n) h g = cc
memcmp_eq_join (x ∷ k) (y ∷ a) (z ∷ b) (suc n) h g = ground (arith, memcmp_eq_join k a b n)

-- The state after an insertion, field by field.
abbrev pub appended : (ℕ → Ptr) → ℕ → Ptr → State → State
appended b i hi s = record {
  table = record s.table {
    buckets = some (update b i hi);
    tail = hi;
    head = if s.table.head == 0 then hi else s.table.head;
    hash_items = (s.table.hash_items + 1) % 2 ^ 32;
  };
  items = record s.items {
    next =
        if s.table.tail == 0
        then update s.items.next hi 0
        else update (update s.items.next hi 0) s.table.tail hi;
    prev = update s.items.prev hi s.table.tail;
    h_next = update s.items.h_next hi (b i);
  };
}

head_first :
    (n v : Ptr → Ptr) (head : Ptr) (ps : List Ptr) (last a : Ptr)
    → Links n v 0 head ps last
    → (if head == 0 then a else head) ≡ first_or ps a
head_first n v head [] last a l = ground arith
head_first n v head (q ∷ ps) last a l = ground arith

pub tail_cases :
    (n v : Ptr → Ptr) (head : Ptr) (ps : List Ptr) (last : Ptr)
    → Links n v 0 head ps last
    → (last ≡ 0) ⊎ (has last ps ≡ true)
tail_cases n v head [] last l = inl l.1
tail_cases n v head (q ∷ ps) last l = inr (last_mem n v 0 head q ps last l)

module _ (hash : List ℕ → ℕ → ℕ → ℕ) (reads : ReadsKey hash) where
  pub append_item-appended :
      (b : ℕ → Ptr) (i : ℕ) (hi : Ptr) (s : State) → append_item hash b i hi s ≡ appended b i hi s
  append_item-appended b i hi s = elim (Bool-cases (s.table.tail == 0)) [
    | inl y ↦ rw y
    | inr z ↦ rw z
  ]

  module _ (s : State) (ps : List Ptr) (v : IsValid hash s ps) (hi : Ptr) (ne : hi ≢ 0)
      (alive : s.items.live hi ≡ true) (fresh : has hi ps ≡ false)
      (free : (p : Ptr)
        → has p ps ≡ true
        → has_key s.items (s.items.key hi) (s.items.key_length hi) p ≡ false)
      (room : length ps + 1 < 2 ^ 32) where
    unfoldable pub place : ℕ
    place = bucket_of hash (s.items.key hi) (s.items.key_length hi)

    outside : (j : ℕ) → has hi (v.chain j) ≡ false
    outside j = elim (Bool-cases (has hi (v.chain j))) [
      | inl y ↦ cc (fresh, (v.chained j hi y).0)
      | inr z ↦ z
    ]

    b' : ℕ → Ptr
    b' = update v.b place hi

    chain' : ℕ → List Ptr
    chain' = update v.chain place (hi ∷ v.chain place)

    chains' : (j : ℕ) → Chain (update s.items.h_next hi (v.b place)) (b' j) (chain' j)
    unfolding b' chain'
    chains' j =
        let rest = λ (k : ℕ).
          Chain-update s.items.h_next (v.b k) (v.chain k) hi (v.b place) (outside k) (v.chains k) in
        elim (Bool-cases (j == place)) [
          | inl y ↦
              let self : update s.items.h_next hi (v.b place) hi ≡ v.b place = ground arith in
              rw y (refl, ne, rw self (rest place))
          | inr z ↦ rw z (rest j)
        ]

    chained' :
        (j : ℕ) (p : Ptr)
        → has p (chain' j) ≡ true
        → (has p (ps ++ (hi ∷ [])) ≡ true)
          × (bucket_of hash (s.items.key p) (s.items.key_length p) ≡ j)
    unfolding chain' place
    chained' j p m = ground (arith, has-append p ps (hi ∷ []), v.chained j p, v.chained place p)

    listed' :
        (p : Ptr)
        → has p (ps ++ (hi ∷ [])) ≡ true
        → has p (chain' (bucket_of hash (s.items.key p) (s.items.key_length p))) ≡ true
    unfolding chain' place
    listed' p m = ground (arith, has-append p ps (hi ∷ []), v.listed p)

    clash :
        (key : List ℕ) (nkey : ℕ) (p : Ptr)
        → has p ps ≡ true
        → has_key s.items key nkey p ≡ true
        → has_key s.items key nkey hi ≡ true
        → ⊥
    clash key nkey p m kp kh =
        ground (arith, free p m, memcmp_eq_join key (s.items.key hi) (s.items.key p) nkey)

    unique' :
        (key : List ℕ) (nkey : ℕ) (p q : Ptr)
        → has p (ps ++ (hi ∷ [])) ≡ true
        → has q (ps ++ (hi ∷ [])) ≡ true
        → has_key s.items key nkey p ≡ true
        → has_key s.items key nkey q ≡ true
        → p ≡ q
    unique' key nkey p q mp mq kp kq = ground (
      arith,
      has-append p ps (hi ∷ []),
      has-append q ps (hi ∷ []),
      v.unique key nkey p q,
      clash key nkey p,
      clash key nkey q,
    )

    links' :
        Links
          (appended v.b place hi s).items.next
          (update s.items.prev hi s.table.tail)
          0
          (if s.table.head == 0 then hi else s.table.head)
          (ps ++ (hi ∷ []))
          hi
    links' = rw (head_first s.items.next s.items.prev s.table.head ps s.table.tail hi v.links) (
        Links-snoc s.items.next s.items.prev (appended v.b place hi s).items.next
          (update s.items.prev hi s.table.tail) 0 s.table.head ps s.table.tail hi ne v.distinct
          (λ q m.
            let q0 : q ≢ 0 =
              ne-zero_of_mem s.items.next s.items.prev 0 s.table.head ps s.table.tail q v.links m in
            (ground arith, ground arith))
          (ground
            (arith, tail_cases s.items.next s.items.prev s.table.head ps s.table.tail v.links))
          (ground arith) v.links)

    pub appended-IsValid : IsValid hash (appended v.b place hi s) (ps ++ (hi ∷ []))
    unfolding b' chain'
    appended-IsValid = record {
      b = b';
      chain = chain';
      table = refl;
      chains = chains';
      chained = chained';
      listed = listed';
      chain_distinct = λ j. elim (Bool-cases (j == place)) [
        | inl y ↦ rw y (outside place, v.chain_distinct place)
        | inr z ↦ rw z (v.chain_distinct j)
      ];
      live = λ p m. ground (arith, has-append p ps (hi ∷ []), v.live p);
      unique = unique';
      distinct = Distinct-append ps hi v.distinct fresh;
      links = links';
      count = omega (arith, length-append ps (hi ∷ []), v.count);
      small = omega (arith, length-append ps (hi ∷ []));
    }
