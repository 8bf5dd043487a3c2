-- ===== src/Hashtable/Relink.antt =====
-- What appending to a doubly linked list, and taking an address out of it, does to the list.
use mathlib.Core.Path.{subst}
use cclab.Base.{
  ◌≡◌, refl, sym, ◌∙◌, ◌≢◌, ◌⊎◌, inl, inr, true, false, List, [], ◌∷◌, ◌++◌, ◌==◌, if◌then◌else◌,
  arith, Bool-cases,
}
use cclab.Hashtable.Store.{Ptr}
use cclab.Hashtable.Lists.{has, Distinct, delete, Links, Links-frame}

abbrev pub first_or : List Ptr → Ptr → Ptr
first_or [] a = a
first_or (q ∷ xs) a = q

module _ (n v : Ptr → Ptr) where
  -- The end of a list that is not empty is one of its addresses.
  pub last_mem :
      (before p q : Ptr) (xs : List Ptr) (last : Ptr)
      → Links n v before p (q ∷ xs) last
      → has last (q ∷ xs) ≡ true
  last_mem before p q [] last (e, ne, b, l) = ground arith
  last_mem before p q (r ∷ xs) last (e, ne, b, l) = ground (arith, last_mem q (n q) r xs last l)

  pub next_mem :
      (before p : Ptr) (xs : List Ptr) (last a : Ptr)
      → Links n v before p xs last
      → has a xs ≡ true
      → (n a ≡ 0) ⊎ (has (n a) xs ≡ true)
  next_mem before p [] last a l h = cc
  next_mem before p (q ∷ []) last a (e, ne, b, l) h = ground arith
  next_mem before p (q ∷ r ∷ xs) last a (e, ne, b, l) h =
      ground (arith, next_mem q (n q) (r ∷ xs) last a l, l.0)

  pub prev_mem :
      (before p : Ptr) (xs : List Ptr) (last a : Ptr)
      → Links n v before p xs last
      → has a xs ≡ true
      → ((a ≡ p) × (v a ≡ before)) ⊎ ((a ≢ p) × (has (v a) xs ≡ true))
  prev_mem before p [] last a l h = cc
  prev_mem before p (q ∷ xs) last a (e, ne, b, l) h = ground (arith, prev_mem q (n q) xs last a l)

  pub ne-zero_of_mem :
      (before p : Ptr) (xs : List Ptr) (last a : Ptr)
      → Links n v before p xs last
      → has a xs ≡ true
      → a ≢ 0
  ne-zero_of_mem before p [] last a l h = cc
  ne-zero_of_mem before p (q ∷ xs) last a (e, ne, b, l) h =
      ground (arith, ne-zero_of_mem q (n q) xs last a l)

  pub zero-not_mem :
      (before p : Ptr) (xs : List Ptr) (last : Ptr) → Links n v before p xs last → has 0 xs ≡ false
  zero-not_mem before p xs last l = elim (Bool-cases (has 0 xs)) [
    | inl y ↦ absurd (ne-zero_of_mem before p xs last 0 l y refl)
    | inr z ↦ z
  ]

  -- The new last address is linked behind the former one.
  pub Links-snoc :
      (n' v' : Ptr → Ptr) (before p : Ptr) (xs : List Ptr) (last a : Ptr)
      → a ≢ 0
      → Distinct xs
      → ((q : Ptr) → has q xs ≡ true → (n' q ≡ (if q == last then a else n q)) × (v' q ≡ v q))
      → n' a ≡ 0
      → v' a ≡ last
      → Links n v before p xs last
      → Links n' v' before (first_or xs a) (xs ++ (a ∷ [])) a
  Links-snoc n' v' before p [] last a ne d same na va l = (refl, ne, va ∙ l.1, (na, refl))
  Links-snoc n' v' before p (q ∷ []) last a ne d same na va (e, ne', b, l) =
      let here : (n' q ≡ (if q == last then a else n q)) × (v' q ≡ v q) = same q (ground arith) in
      (refl, ne', here.1 ∙ b, (ground arith, ne, va ∙ l.1, (na, refl)))
  Links-snoc n' v' before p (q ∷ r ∷ xs) last a ne d same na va (e, ne', b, l) =
      let here : (n' q ≡ (if q == last then a else n q)) × (v' q ≡ v q) = same q (ground arith) in
      let inside : has last (r ∷ xs) ≡ true = last_mem q (n q) r xs last l in
      let apart : (q == last) ≡ false = ground arith in
      let step : n' q ≡ r = ground arith in
      (
        refl,
        ne',
        here.1 ∙ b,
        rw step (
            Links-snoc n' v' q (n q) (r ∷ xs) last a ne d.1 (λ t i. same t (ground arith)) na va l),
      )

  module _ (n' v' : Ptr → Ptr) (p : Ptr) where
    -- What is left when `p` was first.
    pub relink :
        (before : Ptr) (xs : List Ptr) (last : Ptr)
        → v p ≡ before
        → has p xs ≡ false
        → has before xs ≡ false
        → Distinct xs
        → ((q : Ptr)
            → has q xs ≡ true
            → (n' q ≡ (if q == v p then n p else n q)) × (v' q ≡ (if q == n p then v p else v q)))
        → Links n v p (n p) xs last
        → Links n' v' before (n p) xs (if p == last then v p else last)
    relink before [] last b out out' d same l = (l.0, ground arith)
    relink before (r ∷ ys) last b out out' d same l =
        let here : (n' r ≡ (if r == v p then n p else n r))
            × (v' r ≡ (if r == n p then v p else v r)) =
          same r (ground arith) in
        let inside : has last (r ∷ ys) ≡ true = last_mem p (n p) r ys last l in
        let stays : (p == last) ≡ false = ground arith in
        let step : n' r ≡ n r = ground arith in
        (
          l.0,
          l.1,
          ground arith,
          rw (stays, step)
              (Links-frame n v n' v' r (n r) ys last (λ t i. ground (arith, same t)) l.3),
        )

    -- Without `p` the list links what stood before and behind it.
    pub Links-delete :
        (before f : Ptr) (xs : List Ptr) (last : Ptr)
        → has p xs ≡ true
        → Distinct xs
        → has before xs ≡ false
        → ((q : Ptr)
            → has q xs ≡ true
            → q ≢ p
            → (n' q ≡ (if q == v p then n p else n q)) × (v' q ≡ (if q == n p then v p else v q)))
        → Links n v before f xs last
        → Links n' v' before
            (if p == f then n p else f)
            (delete p xs)
            (if p == last then v p else last)
    Links-delete before f [] last i d out same l = cc
    Links-delete before f (q ∷ xs) last i d out same (e, ne, b, l) = elim (Bool-cases (p == q)) [
      | inl y ↦
          let pq : p ≡ q = ground arith in
          let pf : (p == f) ≡ true = ground arith in
          rw (pf, y)
            (relink before xs last (ground arith) (ground arith) (ground arith) d.1
              (λ t i'. same t (ground arith) (ground arith))
              (subst (λ t. Links n v t (n t) xs last) (sym pq) l))
      | inr z ↦
          let pf : (p == f) ≡ false = ground arith in
          let inside : has p xs ≡ true = ground arith in
          let here : (n' q ≡ (if q == v p then n p else n q))
              × (v' q ≡ (if q == n p then v p else v q)) =
            same q (ground arith) (ground arith) in
          let succ : (n p ≡ 0) ⊎ (has (n p) xs ≡ true) = next_mem q (n q) xs last p l inside in
          let pred : ((p ≡ n q) × (v p ≡ q)) ⊎ ((p ≢ n q) × (has (v p) xs ≡ true)) =
            prev_mem q (n q) xs last p l inside in
          let back : v' q ≡ before = ground arith in
          let step : n' q ≡ (if p == n q then n p else n q) = ground arith in
          rw (pf, z)
            (
              e,
              ne,
              back,
              rw step
                  (Links-delete q (n q) xs last inside d.1 d.0 (λ t i'. same t (ground arith)) l),
            )
    ]
