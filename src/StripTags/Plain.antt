-- ===== src/StripTags/Plain.antt =====
-- php_strip_tags/php_strip_tags.c: `php_strip_tags_ex` on a text in which no tag opens.
use cclab.Base.{
  ℕ, ◌≡◌, refl, ◌∙◌, ap, Bool, false, Option, some, List, [], ◌∷◌, ◌++◌, ◌==◌, ltb, length,
  append-nil, append_assoc, arith,
}
use cclab.StripTags.Machine.{Strip}
use cclab.StripTags.Strip.{
  kind, step, strip_loop, start, lower, has_nul, is_past, php_strip_tags_ex,
}
use cclab.StripTags.Safety.{after_step}

-- The text has neither a NUL nor a `<`.
abbrev pub IsPlain : List ℕ → Type 0
IsPlain [] = Unit
IsPlain (c ∷ text) = ((c == 0) ≡ false) × ((c == 60) ≡ false) × IsPlain text

has_nul-IsPlain : (text : List ℕ) → IsPlain text → has_nul text ≡ false
has_nul-IsPlain [] p = refl
has_nul-IsPlain (c ∷ text) p = ground (arith, has_nul-IsPlain text p.2)

module _ (allow : Option (List ℕ)) (spaces : Bool) where
  abbrev copied : List ℕ → Strip
  copied o = record (start allow 0) { out = o }

  step-plain :
      (c : ℕ) (o before after : List ℕ)
      → (c == 0) ≡ false
      → (c == 60) ≡ false
      → step allow spaces (kind c) c before after (copied o) ≡ some (copied (o ++ (c ∷ [])))
  unfolding kind
  step-plain c o before after nul lt = ground arith

  strip_loop-plain :
      (text o before : List ℕ)
      → IsPlain text
      → strip_loop allow spaces before text (copied o) ≡ some (copied (o ++ text))
  unfolding strip_loop
  strip_loop-plain [] o before p = rw (append-nil o)
  strip_loop-plain (c ∷ text) o before p =
      after_step (step allow spaces (kind c) c before text (copied o))
        (strip_loop allow spaces (c ∷ before) text) (copied (o ++ (c ∷ [])))
        (step-plain c o before text p.0 p.1)
      ∙ strip_loop-plain text (o ++ (c ∷ [])) (c ∷ before) p.2
      ∙ ap (λ x. some (copied x)) (append_assoc o (c ∷ []) text)

-- A text with neither NUL nor `<` is its own result, from state 0 and whatever tags are allowed: its
-- length is returned, `rbuf` keeps its bytes, and the state stays 0.
pub strip-IsPlain :
    (text : List ℕ) (allow : Option (List ℕ)) (allow_len : ℕ) (spaces : Bool)
    → IsPlain text
    → is_past allow allow_len ≡ false
    → php_strip_tags_ex text 0 allow allow_len spaces ≡ some (length text, text, 0)
unfolding php_strip_tags_ex
strip-IsPlain text allow allow_len spaces p fits =
    let full : ltb (length text) (length text) ≡ false = ground arith in
    rw
      (
        has_nul-IsPlain text p,
        fits,
        strip_loop-plain (lower allow allow_len) spaces text [] [] p,
        full,
      )
      refl
