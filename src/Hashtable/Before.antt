-- ===== src/Hashtable/Before.antt =====
-- hashtable/hashtable.c: `_hashitem_before`, and what a write to the place that it finds does to a
-- chain.
use mathlib.Core.Path.{subst}
use cclab.Base.{
  ℕ, zero, suc, ◌<◌, ◌≡◌, refl, ◌∙◌, ap, ◌≢◌, ◌⊎◌, inl, inr, Bool, true, false, some, List, [], ◌∷◌,
  ◌==◌, if◌then◌else◌, length, arith, Bool-cases,
}
use cclab.Hashtable.Store.{Ptr, Items, has_key}
use cclab.Hashtable.Lists.{has, Distinct, delete, Chain, Chain-frame}
use cclab.Hashtable.Lookup.{Place, bucket, link, before_loop}
use cclab.Hashtable.Valid.{find_first, find_first_cases}

-- The place that holds the first item of `xs` with the key, where `at` holds the first one.
unfoldable pub place_first : Items → List ℕ → ℕ → Place → List Ptr → Place
place_first h key nkey at [] = at
place_first h key nkey at (p ∷ xs) =
    if has_key h key nkey p then at else place_first h key nkey (link p) xs

abbrev pub is_link : Place → Ptr → Bool
is_link (bucket i) q = false
is_link (link a) q = q == a

pub before_loop_lem :
    (f : ℕ) (h : Items) (key : List ℕ) (nkey : ℕ) (at : Place) (p : Ptr) (xs : List Ptr)
    → length xs < f
    → Chain h.h_next p xs
    → ((q : Ptr) → has q xs ≡ true → h.live q ≡ true)
    → before_loop f h key nkey at p ≡ some (place_first h key nkey at xs, find_first h key nkey xs)
unfolding before_loop find_first place_first
before_loop_lem zero h key nkey at p xs lt c live = absurd (omega arith)
before_loop_lem (suc f) h key nkey at p [] lt c live = ground arith
before_loop_lem (suc f) h key nkey at p (q ∷ xs) lt (e, ne, c) live =
    let here : h.live p ≡ true = rw e (live q (ground arith)) in
    let next : Chain h.h_next (h.h_next p) xs = rw e c in
    ground (
      arith,
      before_loop_lem f h key nkey (link p) (h.h_next p) xs (omega arith) next
          (λ t i. live t (ground arith)),
    )

find_first-ne :
    (h : Items) (key : List ℕ) (nkey : ℕ) (q : Ptr) (xs : List Ptr)
    → has q xs ≡ false
    → find_first h key nkey xs ≢ 0
    → q ≢ find_first h key nkey xs
find_first-ne h key nkey q xs out ne = elim (find_first_cases h key nkey xs) [
  | inl (z, free) ↦ absurd (ne z)
  | inr (i, k) ↦ ground arith
]

-- Where `at` holds the first of `xs`, the place `pl` holds `r`.
abbrev pub Found : Place → List Ptr → Place → Ptr → Type 0
Found at [] pl r = ⊥
Found at (q ∷ xs) pl r = ((q ≡ r) × (pl ≡ at)) ⊎ ((q ≢ r) × Found (link q) xs pl r)

-- The two searches agree.
pub place_first-Found :
    (h : Items) (key : List ℕ) (nkey : ℕ) (at : Place) (xs : List Ptr)
    → Distinct xs
    → find_first h key nkey xs ≢ 0
    → Found at xs (place_first h key nkey at xs) (find_first h key nkey xs)
unfolding find_first place_first
place_first-Found h key nkey at [] d ne = ne refl
place_first-Found h key nkey at (q ∷ xs) d ne = elim (Bool-cases (has_key h key nkey q)) [
  | inl y ↦ rw y (inl (refl, refl))
  | inr z ↦
      let ne₁ : find_first h key nkey xs ≢ 0 = λ e₁. ne (rw z e₁) in
      rw z (
        inr
          (find_first-ne h key nkey q xs d.0 ne₁, place_first-Found h key nkey (link q) xs d.1 ne₁))
]

Found-outside :
    (at : Place) (xs : List Ptr) (pl : Place) (r q : Ptr)
    → is_link at q ≡ false
    → has q xs ≡ false
    → Found at xs pl r
    → is_link pl q ≡ false
Found-outside at [] pl r q z out f = absurd f
Found-outside at (t ∷ xs) pl r q z out (inl (e, e')) = ap (λ l. is_link l q) e' ∙ z
Found-outside at (t ∷ xs) pl r q z out (inr (ne, f)) =
    Found-outside (link t) xs pl r q (ground arith) (ground arith) f

pub Found-mem :
    (at : Place) (xs : List Ptr) (pl : Place) (r : Ptr)
    → Found at xs pl r
    → (pl ≡ at) ⊎ ((a : Ptr) × (has a xs ≡ true) × (pl ≡ link a))
Found-mem at [] pl r f = absurd f
Found-mem at (q ∷ xs) pl r (inl (e, e')) = inl e'
Found-mem at (q ∷ xs) pl r (inr (ne, f)) = elim (Found-mem (link q) xs pl r f) [
  | inl e ↦ inr (q, ground arith, e)
  | inr (a, i, e) ↦ inr (a, ground arith, e)
]

-- The place is `at` just where the first address is the one that is found.
pub Found-cases :
    (n : Ptr → Ptr) (at : Place) (p : Ptr) (xs : List Ptr) (pl : Place) (r : Ptr)
    → Chain n p xs
    → Found at xs pl r
    → ((pl ≡ at) × (p ≡ r)) ⊎ ((p ≢ r) × ((a : Ptr) × (has a xs ≡ true) × (pl ≡ link a)))
Found-cases n at p [] pl r c f = absurd f
Found-cases n at p (q ∷ xs) pl r (pq, ne, c) (inl (e, e')) = inl (e', pq ∙ e)
Found-cases n at p (q ∷ xs) pl r (pq, ne, c) (inr (qr, f)) = inr (
  ground arith,
  elim (Found-mem (link q) xs pl r f) [
    | inl e ↦ (q, ground arith, e)
    | inr (a, i, e) ↦ (a, ground arith, e)
  ],
)

module _ (n n' : Ptr → Ptr) (pl : Place) (r : Ptr) where
  -- The item behind `q` is the one that is found just where its place is the link of `q`.
  Found-link :
      (q p : Ptr) (xs : List Ptr)
      → Chain n p xs
      → has q xs ≡ false
      → Found (link q) xs pl r
      → is_link pl q ≡ (p == r)
  Found-link q p [] c out f = absurd f
  Found-link q p (t ∷ xs) c out (inl (e, e')) = ap (λ l. is_link l q) e' ∙ ground arith
  Found-link q p (t ∷ xs) c out (inr (ne, f)) =
      Found-outside (link t) xs pl r q (ground arith) (ground arith) f ∙ ground arith

  -- Where the place has been given what follows `r`, the chain leads round `r`.
  pub Chain-delete :
      (at : Place) (p : Ptr) (xs : List Ptr)
      → Chain n p xs
      → Distinct xs
      → ((q : Ptr) → has q xs ≡ true → is_link at q ≡ false)
      → Found at xs pl r
      → ((q : Ptr) → has q xs ≡ true → q ≢ r → n' q ≡ (if is_link pl q then n r else n q))
      → Chain n' (if p == r then n r else p) (delete r xs)
  Chain-delete at p [] c d out f same = absurd f
  Chain-delete at p (q ∷ xs) (e, ne, c) d out (inl (qr, pa)) same =
      let pr : (p == r) ≡ true = ground arith in
      let rq : (r == q) ≡ true = ground arith in
      rw (pr, rq)
        (Chain-frame n n' (n r) xs
          (λ t i.
            let z : is_link pl t ≡ false = ap (λ l. is_link l t) pa ∙ out t (ground arith) in
            ground (arith, same t))
          (subst (λ t. Chain n (n t) xs) qr c))
  Chain-delete at p (q ∷ xs) (e, ne, c) d out (inr (qr, f)) same =
      let pr : (p == r) ≡ false = ground arith in
      let rq : (r == q) ≡ false = ground arith in
      let lk : is_link pl q ≡ (n q == r) = Found-link q (n q) xs c d.0 f in
      let step : n' q ≡ (if n q == r then n r else n q) = ground (arith, same q) in
      rw (pr, rq)
        (
          e,
          ne,
          rw step (
              Chain-delete (link q) (n q) xs c d.1 (λ t i. ground arith) f
                (λ t i. same t (ground arith))),
        )
