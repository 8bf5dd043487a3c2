-- ===== src/StripTags/Cases.antt =====
-- php_strip_tags/php_strip_tags.c: the cases of the switch that read back, change the state or end a
-- tag, within the bounds.
use cclab.Base.{
  ℕ, suc, ◌-◌, ◌≡◌, refl, sym, inl, inr, Bool, true, false, not, ◌&&◌, ◌||◌, Option, none, some,
  List, [], ◌∷◌, ◌++◌, ◌==◌, if◌then◌else◌, length, is_some, length-append, Bool-cases, arith,
  lt→ltb,
}
use cclab.Base.Int.{pos}
use cclab.StripTags.Tag.{php_tag_find}
use cclab.StripTags.Machine.{Strip, is_zero, store, reset, with_last, ends_with, is_doctype, is_xml}
use cclab.StripTags.Handler
use cclab.StripTags.Within.{
  Inv, Within, if-Within, if-Inv, kept, stored, store-stored, Inv-stored, store_if, regular-Within,
  emit-Within, php_tag_find-ends,
}

-- A character stands before `p`.
abbrev pub is_behind : List ℕ → Bool
is_behind [] = false
is_behind (b ∷ before) = true

module _ (allow : Option (List ℕ)) where
  with_last-Within :
      (n : ℕ) (before : List ℕ) (f : ℕ → Option Strip)
      → is_behind before ≡ true
      → ((b : ℕ) → Within allow n (f b))
      → Within allow n (with_last before f)
  with_last-Within n [] f h g = cc
  with_last-Within n (b ∷ before) f h g = g b

  reset-Within : (n : ℕ) (s : Strip) → Inv allow n s → Within allow (suc n) (some (reset s))
  reset-Within n s i = (reset s, refl, (omega (arith, i.0), λ a. omega (arith, i.1 a), λ a. i.2 a))

  reset_if :
      (n : ℕ) (b : Bool) (s : Strip)
      → Inv allow n s
      → Within allow (suc n) (some (if b then reset s else s))
  reset_if n true s i = reset-Within n s i
  reset_if n false s i = kept allow n s i

  keep_found-Within :
      (n : ℕ) (s : Strip) (o : Option Bool) (b : Bool)
      → o ≡ some b
      → Inv allow n s
      → Within allow n (Handler.keep_found allow s o)
  keep_found-Within n s o b e i = rw e (
    record s { out = if b then s.out ++ s.tag else s.out; tag = [] },
    refl,
    (
      elim (Bool-cases b) [
        | inl y ↦ rw y (omega (arith, length-append s.out s.tag, i.0))
        | inr z ↦ rw z (omega (arith, i.0))
      ],
      λ a. omega (arith, i.1 a),
      i.2,
    ),
  )

  keep_allowed-Within :
      (n : ℕ) (set : List ℕ) (s : Strip)
      → is_some allow ≡ true
      → Inv allow n s
      → Within allow (suc n) (Handler.keep_allowed allow set (store 62 s))
  keep_allowed-Within n set s a i =
      let j : Inv allow (suc n) (stored allow 62 s) = Inv-stored allow n 62 s a i in
      let (b, e) = php_tag_find-ends s.tag set in
      rw
        (
          store-stored allow n 62 s a i,
          lt→ltb (length (s.tag ++ (62 ∷ []))) (stored allow 62 s).size (j.1 a),
        )
        (keep_found-Within (suc n) (stored allow 62 s) (php_tag_find (s.tag ++ (62 ∷ [])) set) b e
          j)

  close_with-Within :
      (n : ℕ) (o : Option (List ℕ)) (s : Strip)
      → is_some o ≡ is_some allow
      → Inv allow n s
      → Within allow (suc n) (Handler.close_with allow o s)
  close_with-Within n none s e i = kept allow n s i
  close_with-Within n (some set) s e i = keep_allowed-Within n set s (sym e) i

  pub greater-Within :
      (n : ℕ) (before : List ℕ) (s : Strip)
      → (is_behind before || s.state == 0) ≡ true
      → Inv allow n s
      → Within allow (suc n) (Handler.greater allow before s)
  greater-Within n before s first i =
      if-Within allow (suc n) (not (s.depth == 0))
        (λ _. kept allow n (record s { depth = s.depth - 1 }) i)
        λ _.
          if-Within allow (suc n) (not (s.in_q == 0)) (λ _. kept allow n s i)
            λ _.
              if-Within allow (suc n) (s.state == 1)
                (λ _. close_with-Within n allow (record s { lc = 62; in_q = 0; state = 0 }) refl i)
                λ _.
                  if-Within allow (suc n) (s.state == 2)
                    (λ two.
                      if-Within allow (suc n) (is_zero s.br && not (s.lc == 34))
                        (λ _.
                          with_last-Within (suc n) before
                            (λ b. some (if b == 63 then reset s else s)) (ground arith)
                            λ b. reset_if n (b == 63) s i)
                        λ _. kept allow n s i)
                    λ _.
                      if-Within allow (suc n) (s.state == 3) (λ _. reset-Within n s i)
                        λ _.
                          if-Within allow (suc n) (s.state == 4)
                            (λ _. reset_if n (ends_with 45 45 before) s i)
                            λ _. emit-Within allow n 62 s i

  quote_char-Within :
      (n c : ℕ) (before : List ℕ) (s : Strip)
      → (is_behind before || s.state == 0) ≡ true
      → Inv allow n s
      → Within allow (suc n) (Handler.quote_char allow c before s)
  quote_char-Within n c before s first i =
      if-Within allow (suc n) (s.state == 2)
        (λ two. with_last-Within (suc n) before _ (ground arith) λ b.
          let open_or_kept : Inv allow n (if not (s.lc == 92) then record s { lc = c } else s) =
            if-Inv allow n (not (s.lc == 92)) (record s { lc = c }) s i i in
          let changed =
            if-Inv allow n (s.lc == c) (record s { lc = 0 })
              (if not (s.lc == 92) then record s { lc = c } else s) i open_or_kept in
          kept allow n _ (
            if-Inv allow n (b == 92) s
              (if s.lc == c
                then record s { lc = 0 }
                else if not (s.lc == 92)
                then record s { lc = c }
                else s)
              i changed))
        λ _.
          if-Within allow (suc n) (s.state == 0) (λ _. emit-Within allow n c s i)
            λ _.
              if-Within allow (suc n) (is_some allow && s.state == 1)
                (λ a. store_if allow n c s (s.state == 1) a i) λ _. kept allow n s i

  toggle-Within :
      (n c : ℕ) (before : List ℕ) (r : Option Strip)
      → Within allow n r
      → Within allow n (Handler.toggle allow c before r)
  toggle-Within n c before r (s, e, i) = rw e (
    (if Handler.toggles allow c before s
        then record s { in_q = if s.in_q == 0 then c else 0 }
        else s),
    refl,
    if-Inv allow n (Handler.toggles allow c before s)
        (record s { in_q = if s.in_q == 0 then c else 0 }) s i i,
  )

  pub quote-Within :
      (n c : ℕ) (before : List ℕ) (s : Strip)
      → (is_behind before || s.state == 0) ≡ true
      → Inv allow n s
      → Within allow (suc n) (Handler.quote allow c before s)
  quote-Within n c before s first i =
      if-Within allow (suc n) (s.state == 4) (λ _. kept allow n s i)
        λ _.
          toggle-Within (suc n) c before (Handler.quote_char allow c before s)
            (quote_char-Within n c before s first i)

  pub bang-Within :
      (n : ℕ) (before : List ℕ) (s : Strip)
      → (is_behind before || s.state == 0) ≡ true
      → Inv allow n s
      → Within allow (suc n) (Handler.bang allow before s)
  bang-Within n before s first i =
      if-Within allow (suc n) (s.state == 1)
        (λ one. with_last-Within (suc n) before _ (ground arith) λ b.
          if-Within allow (suc n) (b == 60) (λ _. kept allow n (record s { state = 3; lc = 33 }) i)
            λ _. regular-Within allow n 33 s i)
        λ _. regular-Within allow n 33 s i

  pub dash-Within :
      (n : ℕ) (before : List ℕ) (s : Strip)
      → Inv allow n s
      → Within allow (suc n) (Handler.dash allow before s)
  dash-Within n before s i =
      if-Within allow (suc n) (s.state == 3 && ends_with 45 33 before)
        (λ _. kept allow n (record s { state = 4 }) i) λ _. regular-Within allow n 45 s i

  pub letter_l-Within :
      (n c : ℕ) (before : List ℕ) (s : Strip)
      → Inv allow n s
      → Within allow (suc n) (Handler.letter_l allow c before s)
  letter_l-Within n c before s i =
      if-Within allow (suc n) (s.state == 2 && is_xml before)
        (λ _. kept allow n (record s { state = 1 }) i) λ _. regular-Within allow n c s i

  pub letter_e-Within :
      (n c : ℕ) (before : List ℕ) (s : Strip)
      → Inv allow n s
      → Within allow (suc n) (Handler.letter_e allow c before s)
  letter_e-Within n c before s i =
      if-Within allow (suc n) (s.state == 3 && is_doctype before)
        (λ _. kept allow n (record s { state = 1 }) i) λ _. letter_l-Within n c before s i

  pub question-Within :
      (n : ℕ) (before : List ℕ) (s : Strip)
      → (is_behind before || s.state == 0) ≡ true
      → Inv allow n s
      → Within allow (suc n) (Handler.question allow before s)
  question-Within n before s first i =
      if-Within allow (suc n) (s.state == 1)
        (λ one. with_last-Within (suc n) before _ (ground arith) λ b.
          if-Within allow (suc n) (b == 60)
            (λ _. kept allow n (record s { br = pos 0; state = 2 }) i)
            λ _. letter_e-Within n 63 before s i)
        λ _. letter_e-Within n 63 before s i
