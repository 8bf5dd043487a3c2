-- ===== src/StripTags/Clean.antt =====
-- php_strip_tags/php_strip_tags.c: without allowed tags no `<` is left.
use cclab.Base.{
  ℕ, ◌≡◌, refl, ◌⊎◌, inl, inr, Bool, true, false, not, ◌||◌, Option, none, some, List, [], ◌∷◌,
  ◌++◌, ◌==◌, arith,
}
use cclab.StripTags.Machine.{Strip}
use cclab.StripTags.Strip.{Kind, kind, step, strip_loop, start, finish, has_nul, php_strip_tags_ex}
use cclab.StripTags.Safety.{strip_safe}

abbrev pub contains : ℕ → List ℕ → Bool
contains x [] = false
contains x (c ∷ text) = c == x || contains x text

contains-snoc :
    (x c : ℕ) (text : List ℕ) → contains x (text ++ (c ∷ [])) ≡ (contains x text || c == x)
contains-snoc x c [] = ground arith
contains-snoc x c (d ∷ text) = ground (arith, contains-snoc x c text)

-- The result, where there is one, has no `<`.
abbrev is_clean : Option Strip → Bool
is_clean none = true
is_clean (some s) = not (contains 60 s.out)

-- A character that is not `<` is treated by another case than that of `<`.
kind-cases : (c : ℕ) → (kind c ≡ Kind.less) ⊎ ((c == 60) ≡ false)
unfolding kind
kind-cases c = ground arith

step-clean :
    (k : Kind) (c : ℕ) (before after : List ℕ) (s : Strip)
    → (c == 60) ≡ false
    → contains 60 s.out ≡ false
    → is_clean (step none true k c before after s) ≡ true
step-clean Kind.nul c before after s n h = ground arith
step-clean Kind.less c before after s n h = ground arith
step-clean Kind.open_paren c before after s n h = ground (arith, contains-snoc 60 c s.out)
step-clean Kind.close_paren c before after s n h = ground (arith, contains-snoc 60 c s.out)
step-clean Kind.greater c [] after s n h = ground (arith, contains-snoc 60 62 s.out)
step-clean Kind.greater c (b ∷ before) after s n h = ground (arith, contains-snoc 60 62 s.out)
step-clean Kind.quote c [] after s n h = ground (arith, contains-snoc 60 c s.out)
step-clean Kind.quote c (b ∷ before) after s n h = ground (arith, contains-snoc 60 c s.out)
step-clean Kind.bang c [] after s n h = ground (arith, contains-snoc 60 33 s.out)
step-clean Kind.bang c (b ∷ before) after s n h = ground (arith, contains-snoc 60 33 s.out)
step-clean Kind.question c [] after s n h = ground (arith, contains-snoc 60 63 s.out)
step-clean Kind.question c (b ∷ before) after s n h = ground (arith, contains-snoc 60 63 s.out)
step-clean Kind.dash c before after s n h = ground (arith, contains-snoc 60 45 s.out)
step-clean Kind.letter_e c before after s n h = ground (arith, contains-snoc 60 c s.out)
step-clean Kind.letter_l c before after s n h = ground (arith, contains-snoc 60 c s.out)
step-clean Kind.regular c before after s n h = ground (arith, contains-snoc 60 c s.out)

any_step-clean :
    (c : ℕ) (before after : List ℕ) (s : Strip)
    → contains 60 s.out ≡ false
    → is_clean (step none true (kind c) c before after s) ≡ true
any_step-clean c before after s h = elim (kind-cases c) [
  | inl e ↦ rw e (step-clean Kind.less 0 before after s refl h)
  | inr n ↦ step-clean (kind c) c before after s n h
]

next-clean :
    (r : Option Strip) (f : Strip → Option Strip)
    → is_clean r ≡ true
    → ((s : Strip) → contains 60 s.out ≡ false → is_clean (f s) ≡ true)
    → is_clean (elim r as (λ x. Option Strip) [ none ↦ none | some t ↦ f t ]) ≡ true
next-clean none f h g = refl
next-clean (some s) f h g = g s (ground arith)

strip_loop-clean :
    (before text : List ℕ) (s : Strip)
    → contains 60 s.out ≡ false
    → is_clean (strip_loop none true before text s) ≡ true
unfolding strip_loop
strip_loop-clean before [] s h = ground arith
strip_loop-clean before (c ∷ after) s h =
    next-clean (step none true (kind c) c before after s) (strip_loop none true (c ∷ before) after)
      (any_step-clean c before after s h) (strip_loop-clean (c ∷ before) after)

abbrev is_shown : Option (ℕ × List ℕ × ℕ) → Bool
is_shown none = true
is_shown (some (n, written, state)) = not (contains 60 written)

finish-clean :
    (text : List ℕ) (r : Option Strip) → is_clean r ≡ true → is_shown (finish text r) ≡ true
finish-clean text none h = refl
finish-clean text (some s) h = ground (arith, contains-snoc 60 0 s.out)

-- Without allowed tags, and where a tag may begin with a space, the text that `php_strip_tags_ex`
-- leaves of a text without NUL has no `<`.
pub strip-clean :
    (text : List ℕ) (allow_len : ℕ)
    → has_nul text ≡ false
    → (n : ℕ) × (written : List ℕ) × (state : ℕ) × (php_strip_tags_ex text 0 none allow_len true
        ≡ some (n, written, state))
      × (contains 60 written ≡ false)
unfolding php_strip_tags_ex
strip-clean text allow_len clean =
    let (n, written, state, e, short, less) = strip_safe text none allow_len true clean refl in
    let shown : is_shown (php_strip_tags_ex text 0 none allow_len true) ≡ true = rw clean (
      finish-clean text (strip_loop none true [] text (start none 0))
        (strip_loop-clean [] text (start none 0) refl)) in
    let shown' : not (contains 60 written) ≡ true = rw e at shown in
    (n, written, state, e, ground arith)
