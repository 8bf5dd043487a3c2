-- ===== src/Hashtable/Valid.antt =====
-- hashtable/hashtable.c: the invariant of a table, and `hashtable_find` against the list of its items.
use mathlib.Core.Path.{subst}
use cclab.Base.{
  ℕ, zero, suc, ◌%◌, ◌^◌, ◌≤◌, ◌<◌, ◌≡◌, refl, sym, ◌∙◌, ap, ◌≢◌, ◌⊎◌, inl, inr, true, false, some,
  List, [], ◌∷◌, ◌==◌, if◌then◌else◌, length, arith, Bool-cases,
}
use cclab.Hashtable.Store.{Ptr, Items, State, has_key, memcmp_eq}
use cclab.Hashtable.Lists.{length-le_of_has, has, Distinct, Chain, Links}
use cclab.Hashtable.Lookup.{find_loop, rounds, bucket_of, find_in, hashtable_find}

-- The first of the items `xs` with the key, or NULL.
unfoldable pub find_first : Items → List ℕ → ℕ → List Ptr → Ptr
find_first h key nkey [] = 0
find_first h key nkey (p ∷ xs) = if has_key h key nkey p then p else find_first h key nkey xs

-- The bytes of a key decide its hash.
abbrev pub ReadsKey : (List ℕ → ℕ → ℕ → ℕ) → Type 0
ReadsKey hash = (a b : List ℕ) (n : ℕ) → memcmp_eq a b n ≡ true → hash a n 0 ≡ hash b n 0

-- The table holds the items `ps`, in the order of its list. Each bucket heads the chain of the items
-- that hash to it, and no two items share a key.
pub record IsValid (hash : List ℕ → ℕ → ℕ → ℕ) (s : State) (ps : List Ptr) : Type 0 where
  pub b : ℕ → Ptr
  pub chain : ℕ → List Ptr
  pub table : s.table.buckets ≡ some b
  pub chains : (i : ℕ) → Chain s.items.h_next (b i) (chain i)
  pub chained :
      (i : ℕ) (p : Ptr)
      → has p (chain i) ≡ true
      → (has p ps ≡ true) × (bucket_of hash (s.items.key p) (s.items.key_length p) ≡ i)
  pub listed :
      (p : Ptr)
      → has p ps ≡ true
      → has p (chain (bucket_of hash (s.items.key p) (s.items.key_length p))) ≡ true
  pub chain_distinct : (i : ℕ) → Distinct (chain i)
  pub live : (p : Ptr) → has p ps ≡ true → s.items.live p ≡ true
  pub unique :
      (key : List ℕ) (nkey : ℕ) (p q : Ptr)
      → has p ps ≡ true
      → has q ps ≡ true
      → has_key s.items key nkey p ≡ true
      → has_key s.items key nkey q ≡ true
      → p ≡ q
  pub distinct : Distinct ps
  pub links : Links s.items.next s.items.prev 0 s.table.head ps s.table.tail
  pub count : s.table.hash_items ≡ length ps
  pub small : length ps < 2 ^ 32

find_first-hit :
    (h : Items) (key : List ℕ) (nkey : ℕ) (q : Ptr) (xs : List Ptr)
    → has_key h key nkey q ≡ true
    → find_first h key nkey (q ∷ xs) ≡ q
unfolding find_first
find_first-hit h key nkey q xs e = rw e

find_first-miss :
    (h : Items) (key : List ℕ) (nkey : ℕ) (q : Ptr) (xs : List Ptr)
    → has_key h key nkey q ≡ false
    → find_first h key nkey (q ∷ xs) ≡ find_first h key nkey xs
unfolding find_first
find_first-miss h key nkey q xs e = rw e

find_first-nil : (h : Items) (key : List ℕ) (nkey : ℕ) → find_first h key nkey [] ≡ 0
unfolding find_first
find_first-nil h key nkey = refl

-- A table with zeroed fields is valid and holds nothing.
unfoldable pub empty-IsValid :
    (hash : List ℕ → ℕ → ℕ → ℕ) (s : State)
    → s.table.buckets ≡ some (λ _. 0)
    → s.table.head ≡ 0
    → s.table.tail ≡ 0
    → s.table.hash_items ≡ 0
    → IsValid hash s []
empty-IsValid hash s buckets head tail count = record {
  b = λ _. 0;
  chain = λ _. [];
  table = buckets;
  chains = λ i. refl;
  chained = λ i p m. cc;
  listed = λ p m. cc;
  chain_distinct = λ i. tt;
  live = λ p m. cc;
  unique = λ key nkey p q mp mq kp kq. cc;
  distinct = tt;
  links = (head, tail);
  count = count;
  small = omega arith;
}

-- Either no item has the key and `r` is NULL, or `r` is one that has it.
abbrev pub FoundAs : Items → List ℕ → ℕ → List Ptr → Ptr → Type 0
FoundAs h key nkey xs r =
    ((r ≡ 0) × ((p : Ptr) → has p xs ≡ true → has_key h key nkey p ≡ false))
    ⊎ ((has r xs ≡ true) × (has_key h key nkey r ≡ true))

pub find_first_cases :
    (h : Items) (key : List ℕ) (nkey : ℕ) (xs : List Ptr)
    → FoundAs h key nkey xs (find_first h key nkey xs)
find_first_cases h key nkey [] = inl (find_first-nil h key nkey, λ p i. cc)
find_first_cases h key nkey (q ∷ xs) = elim (Bool-cases (has_key h key nkey q)) [
  | inl y ↦
      subst (FoundAs h key nkey (q ∷ xs)) (sym (find_first-hit h key nkey q xs y))
        (inr (ground arith, y))
  | inr z ↦
      subst (FoundAs h key nkey (q ∷ xs)) (sym (find_first-miss h key nkey q xs z))
        (elim (find_first_cases h key nkey xs) [
          | inl (e, free) ↦ inl (e, λ p i. ground (arith, free p))
          | inr (i, k) ↦ inr (ground arith, k)
        ])
]

pub find_loop_lem :
    (f : ℕ) (h : Items) (key : List ℕ) (nkey p : ℕ) (xs : List Ptr)
    → length xs < f
    → Chain h.h_next p xs
    → ((q : Ptr) → has q xs ≡ true → h.live q ≡ true)
    → find_loop f h key nkey p ≡ some (find_first h key nkey xs)
unfolding find_loop find_first
find_loop_lem zero h key nkey p xs lt c live = absurd (omega arith)
find_loop_lem (suc f) h key nkey p [] lt c live = ground arith
find_loop_lem (suc f) h key nkey p (q ∷ xs) lt (e, ne, c) live =
    let here : h.live p ≡ true = rw e (live q (ground arith)) in
    let next : Chain h.h_next (h.h_next p) xs = rw e c in
    ground (
      arith,
      find_loop_lem f h key nkey (h.h_next p) xs (omega arith) next (λ t i. live t (ground arith)),
    )

-- Items with a key hash to the bucket of that key.
pub bucket-has_key :
    (hash : List ℕ → ℕ → ℕ → ℕ) (h : Items) (key : List ℕ) (nkey : ℕ) (p : Ptr)
    → ReadsKey hash
    → has_key h key nkey p ≡ true
    → bucket_of hash key nkey ≡ bucket_of hash (h.key p) (h.key_length p)
bucket-has_key hash h key nkey p reads e =
    let n : nkey ≡ h.key_length p = ground arith in
    let m : memcmp_eq key (h.key p) nkey ≡ true = ground arith in
    ap (λ t. t % 2 ^ 16) (reads key (h.key p) nkey m ∙ ap (λ k. hash (h.key p) k 0) n)

module _ (hash : List ℕ → ℕ → ℕ → ℕ) (reads : ReadsKey hash) where
  -- The chain of the key's bucket and the list of all items agree on who has the key.
  pub first-chain :
      (s : State) (ps : List Ptr) (v : IsValid hash s ps) (key : List ℕ) (nkey : ℕ)
      → find_first s.items key nkey (v.chain (bucket_of hash key nkey))
        ≡ find_first s.items key nkey ps
  first-chain s ps v key nkey =
      let i : ℕ = bucket_of hash key nkey in
      let a : Ptr = find_first s.items key nkey (v.chain i) in
      let c : Ptr = find_first s.items key nkey ps in
      elim (find_first_cases s.items key nkey (v.chain i)) [
        | inl (e, free) ↦ elim (find_first_cases s.items key nkey ps) [
          | inl (e', free') ↦ e ∙ sym e'
          | inr (m, k) ↦
              let e' : i ≡ bucket_of hash (s.items.key c) (s.items.key_length c) =
                bucket-has_key hash s.items key nkey c reads k in
              let inside : has c (v.chain i) ≡ true = rw e' (v.listed c m) in cc (k, free c inside)
        ]
        | inr (m, k) ↦ elim (find_first_cases s.items key nkey ps) [
          | inl (e', free') ↦ cc (k, free' a (v.chained i a m).0)
          | inr (m', k') ↦ v.unique key nkey a c (v.chained i a m).0 m' k k'
        ]
      ]

  pub length-chain :
      (s : State) (ps : List Ptr) (v : IsValid hash s ps) (i : ℕ) → length (v.chain i) ≤ length ps
  length-chain s ps v i =
      length-le_of_has (v.chain i) ps (v.chain_distinct i) λ p m. (v.chained i p m).0

  pub find_run :
      (s : State) (ps : List Ptr) (v : IsValid hash s ps) (key : List ℕ) (nkey : ℕ)
      → find_loop (rounds s.table) s.items key nkey (v.b (bucket_of hash key nkey))
        ≡ some (find_first s.items key nkey ps)
  find_run s ps v key nkey =
      let i : ℕ = bucket_of hash key nkey in
      find_loop_lem (rounds s.table) s.items key nkey (v.b i) (v.chain i)
        (omega (arith, length-chain s ps v i, v.count)) (v.chains i)
        (λ q m. v.live q (v.chained i q m).0)
      ∙ ap some (first-chain s ps v key nkey)

  -- `hashtable_find` of a valid table returns the one item with the key, and NULL if there is none.
  pub find_refines :
      (s : State) (ps : List Ptr) (key : List ℕ) (nkey : ℕ)
      → IsValid hash s ps
      → nkey ≢ 0
      → hashtable_find hash true (some key) nkey s ≡ some (find_first s.items key nkey ps)
  unfolding hashtable_find
  find_refines s ps key nkey v ne =
      let e : (nkey == 0) ≡ false = ground arith in
      rw e (ap (λ o. find_in hash o s key nkey) v.table ∙ find_run s ps v key nkey)
