-- ===== src/StripTags/Safety.antt =====
-- php_strip_tags/php_strip_tags.c: every access of `php_strip_tags_ex` stands in its buffer.
use cclab.Base.{
  ℕ, suc, ◌+◌, ◌≤◌, ◌≡◌, refl, ◌∙◌, inl, inr, Bool, true, false, ◌||◌, Option, none, some, List, [],
  ◌∷◌, ◌++◌, ◌==◌, if◌then◌else◌, ltb, length, length-append, Bool-cases, arith,
}
use cclab.StripTags.Machine.{Strip, increase, decrease}
use cclab.StripTags.Strip.{
  Kind, kind, step, strip_loop, start, lower, has_nul, is_past, php_strip_tags_ex,
}
use cclab.StripTags.Within.{Inv, Within, kept, regular-Within, less-Within, paren-Within}
use cclab.StripTags.Cases.{
  is_behind, greater-Within, quote-Within, bang-Within, dash-Within, letter_l-Within,
  letter_e-Within, question-Within,
}

pub after_step :
    (r : Option Strip) (f : Strip → Option Strip) (s : Strip)
    → r ≡ some s
    → elim r as (λ x. Option Strip) [ none ↦ none | some t ↦ f t ] ≡ f s
after_step r f s e = rw e refl

module _ (allow : Option (List ℕ)) where
  -- Each case of the switch ends, and keeps the bounds with one character more.
  step-Within :
      (k : Kind) (n c : ℕ) (spaces : Bool) (before after : List ℕ) (s : Strip)
      → (is_behind before || s.state == 0) ≡ true
      → Inv allow n s
      → Within allow (suc n) (step allow spaces k c before after s)
  step-Within Kind.nul n c spaces before after s first i = kept allow n s i
  step-Within Kind.less n c spaces before after s first i = less-Within allow n spaces after s i
  step-Within Kind.open_paren n c spaces before after s first i =
      paren-Within allow n increase c s i
  step-Within Kind.close_paren n c spaces before after s first i =
      paren-Within allow n decrease c s i
  step-Within Kind.greater n c spaces before after s first i =
      greater-Within allow n before s first i
  step-Within Kind.quote n c spaces before after s first i = quote-Within allow n c before s first i
  step-Within Kind.bang n c spaces before after s first i = bang-Within allow n before s first i
  step-Within Kind.question n c spaces before after s first i =
      question-Within allow n before s first i
  step-Within Kind.dash n c spaces before after s first i = dash-Within allow n before s i
  step-Within Kind.letter_e n c spaces before after s first i = letter_e-Within allow n c before s i
  step-Within Kind.letter_l n c spaces before after s first i = letter_l-Within allow n c before s i
  step-Within Kind.regular n c spaces before after s first i = regular-Within allow n c s i

  strip_loop-Within :
      (n : ℕ) (spaces : Bool) (before text : List ℕ) (s : Strip)
      → (is_behind before || s.state == 0) ≡ true
      → Inv allow n s
      → Within allow (n + length text) (strip_loop allow spaces before text s)
  unfolding strip_loop
  strip_loop-Within n spaces before [] s first i = (s, refl, (omega (arith, i.0), i.1, i.2))
  strip_loop-Within n spaces before (c ∷ after) s first i =
      let (s', e, j) = step-Within (kind c) n c spaces before after s first i in
      let (s'', e', m) = strip_loop-Within (suc n) spaces (c ∷ before) after s' refl j in
      (
        s'',
        after_step (step allow spaces (kind c) c before after s)
              (strip_loop allow spaces (c ∷ before) after) s' e
            ∙ e',
        (omega (arith, m.0), m.1, m.2),
      )

start-Inv : (allow : Option (List ℕ)) → Inv allow 0 (start allow 0)
start-Inv none = (omega arith, λ a. cc, λ a. cc)
start-Inv (some set) = (omega arith, λ a. omega arith, λ a. omega arith)

-- On a text without NUL, from state 0, and with an `allow_len` that does not pass the NUL of `allow`,
-- `php_strip_tags_ex` returns without an access outside `allow`, the copy of the text, the buffer of the
-- current tag or that of its normalization, whatever tags are allowed; the length returned and the bytes
-- written to `rbuf` are no more than those of the text.
pub strip_safe :
    (text : List ℕ) (allow : Option (List ℕ)) (allow_len : ℕ) (spaces : Bool)
    → has_nul text ≡ false
    → is_past allow allow_len ≡ false
    → (n : ℕ) × (written : List ℕ) × (state : ℕ) × (php_strip_tags_ex text 0 allow allow_len spaces
        ≡ some (n, written, state))
      × (n ≤ length text)
      × (length written ≤ length text)
unfolding php_strip_tags_ex
strip_safe text allow allow_len spaces clean fits =
    let allowed = lower allow allow_len in
    let (s, e, i) =
      strip_loop-Within allowed 0 spaces [] text (start allowed 0) refl (start-Inv allowed) in
    (
      length s.out,
      (if ltb (length s.out) (length text) then s.out ++ (0 ∷ []) else s.out),
      s.state,
      rw (clean, fits, e),
      omega (arith, i.0),
      elim (Bool-cases (ltb (length s.out) (length text))) [
        | inl y ↦ rw y (ground (arith, length-append s.out (0 ∷ []), y))
        | inr z ↦ rw z (omega (arith, i.0))
      ],
    )
