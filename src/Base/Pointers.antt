-- ===== src/Base/Pointers.antt =====
-- Addresses, functions from addresses as the fields of the objects there, and lists of addresses.
use Prim.Native.Nat.{ℕ, ◌+◌, ◌≤◌}
use mathlib.Core.Path.{◌≡◌, refl, sym, ◌∙◌}
use mathlib.Core.Logic.{◌≢◌, inl, inr}
use mathlib.Core.Bool.{Bool, true, false, ◌||◌}
use mathlib.Core.List.{List, [], ◌∷◌, ◌++◌}
use native.Mathlib.Omega.{arith}
use cclab.Base.Tests.{◌==◌, if◌then◌else◌, Bool-cases}
use cclab.Base.Lists.{length}

-- An address; 0 is NULL.
abbrev pub Ptr : Type 0
Ptr = ℕ

-- What `f` becomes when its value at `p` is set.
abbrev pub update {ℓ} : {A : Type ℓ} → (ℕ → A) → ℕ → A → ℕ → A
update f p v q = if q == p then v else f q

abbrev pub has : Ptr → List Ptr → Bool
has p [] = false
has p (q ∷ xs) = (p == q) || has p xs

abbrev pub Distinct : List Ptr → Type 0
Distinct [] = Unit
Distinct (q ∷ xs) = (has q xs ≡ false) × Distinct xs

abbrev pub delete : Ptr → List Ptr → List Ptr
delete p [] = []
delete p (q ∷ xs) = if p == q then xs else q ∷ delete p xs

pub has-append : (p : Ptr) (xs ys : List Ptr) → has p (xs ++ ys) ≡ (has p xs || has p ys)
has-append p [] ys = refl
has-append p (x ∷ xs) ys = ground (arith, has-append p xs ys)

pub has-delete : (a p : Ptr) (xs : List Ptr) → a ≢ p → has a (delete p xs) ≡ has a xs
has-delete a p [] h = refl
has-delete a p (q ∷ xs) h = ground (arith, has-delete a p xs h)

pub has-delete_self : (p : Ptr) (xs : List Ptr) → Distinct xs → has p (delete p xs) ≡ false
has-delete_self p [] d = refl
has-delete_self p (q ∷ xs) d = ground (arith, has-delete_self p xs d.1)

pub Distinct-delete : (p : Ptr) (xs : List Ptr) → Distinct xs → Distinct (delete p xs)
Distinct-delete p [] d = tt
Distinct-delete p (q ∷ xs) d = elim (Bool-cases (p == q)) [
  | inl y ↦ rw y d.1
  | inr z ↦ rw z (has-delete q p xs (ground arith) ∙ d.0, Distinct-delete p xs d.1)
]

pub Distinct-append :
    (xs : List Ptr) (p : Ptr) → Distinct xs → has p xs ≡ false → Distinct (xs ++ (p ∷ []))
Distinct-append [] p d h = (refl, tt)
Distinct-append (q ∷ xs) p d h =
    (ground (arith, has-append q xs (p ∷ [])), Distinct-append xs p d.1 (ground arith))

pub length-delete :
    (p : Ptr) (xs : List Ptr) → has p xs ≡ true → length (delete p xs) + 1 ≡ length xs
length-delete p [] h = cc
length-delete p (q ∷ xs) h = ground (arith, length-delete p xs)

-- What is left was there, and is not what was deleted.
pub has-delete_inv :
    (a p : Ptr) (xs : List Ptr)
    → Distinct xs
    → has a (delete p xs) ≡ true
    → (a ≢ p) × (has a xs ≡ true)
has-delete_inv a p xs d h = elim (Bool-cases (a == p)) [
  | inl y ↦ let e : a ≡ p = ground arith in cc (rw e at h, has-delete_self p xs d)
  | inr z ↦ let ne : a ≢ p = ground arith in (ne, sym (has-delete a p xs ne) ∙ h)
]

-- Distinct addresses among others are no more than those.
pub length-le_of_has :
    (xs ys : List Ptr)
    → Distinct xs
    → ((p : Ptr) → has p xs ≡ true → has p ys ≡ true)
    → length xs ≤ length ys
length-le_of_has [] ys d h = omega arith
length-le_of_has (q ∷ xs) ys d h =
    let i : has q ys ≡ true = h q (ground arith) in
    omega (
      arith,
      length-delete q ys i,
      length-le_of_has xs (delete q ys) d.1
          λ p m. let ne : p ≢ q = ground arith in has-delete p q ys ne ∙ h p (ground arith),
    )

-- The two parts of a list of distinct addresses share none.
pub Distinct-parts :
    (xs ys : List Ptr)
    → Distinct (xs ++ ys)
    → Distinct xs × Distinct ys × ((p : Ptr) → has p xs ≡ true → has p ys ≡ false)
Distinct-parts [] ys d = (tt, d, λ p m. cc)
Distinct-parts (q ∷ xs) ys d =
    let (dx, dy, apart) = Distinct-parts xs ys d.1 in
    (
      (ground (arith, has-append q xs ys), dx),
      dy,
      λ p m. ground (arith, has-append q xs ys, apart p),
    )

-- An address of the list that is moved to the front.
pub has-moved :
    (a p : Ptr) (xs : List Ptr) → Distinct xs → has p xs ≡ true → has a (p ∷ delete p xs) ≡ has a xs
has-moved a p xs d m = ground (arith, has-delete a p xs, has-delete_self p xs d)
