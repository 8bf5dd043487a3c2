-- ===== src/StripTags/Handler.antt =====
-- php_strip_tags/php_strip_tags.c: the cases of the switch of `php_strip_tags_ex`, one function each.
-- `allow` is the lower-case list of allowed tags, or NULL.
use cclab.Base.{
  ℕ, ◌+◌, ◌-◌, Bool, false, not, ◌&&◌, ◌||◌, Option, none, some, List, [], ◌∷◌, ◌++◌, ◌==◌,
  if◌then◌else◌, ltb, length, is_some,
}
use cclab.Base.Int.{ℤ, pos}
use cclab.StripTags.Tag.{isspace, php_tag_find}
use cclab.StripTags.Machine.{
  Strip, is_zero, emit, store, reset, with_last, ends_with, is_doctype, is_xml,
}

module _ (allow : Option (List ℕ)) where
  -- `reg_char`
  abbrev pub regular : ℕ → Strip → Option Strip
  regular c s =
      if s.state == 0
      then some (emit c s)
      else if is_some allow && s.state == 1
      then store c s
      else some s

  -- `*(p + 1)`, the terminator at the end
  abbrev pub peek : List ℕ → ℕ
  peek [] = 0
  peek (c ∷ after) = c

  abbrev pub less : (spaces : Bool) → List ℕ → Strip → Option Strip
  less spaces after s =
      if not (s.in_q == 0)
      then some s
      else if isspace (peek after) && not spaces
      then regular 60 s
      else if s.state == 0
      then (let s' = record s { lc = 60; state = 1 } in
          if is_some allow then store 60 s' else some s')
      else if s.state == 1
      then some (record s { depth = s.depth + 1 })
      else some s

  -- `(` and `)`: `count` changes `br`.
  abbrev pub paren : (count : ℤ → ℤ) → ℕ → Strip → Option Strip
  paren count c s =
      if s.state == 2
      then some
          (if not (s.lc == 34) && not (s.lc == 39) then record s { lc = c; br = count s.br } else s)
      else if is_some allow && s.state == 1
      then store c s
      else if s.state == 0
      then some (emit c s)
      else some s

  abbrev pub keep_found : Strip → Option Bool → Option Strip
  keep_found s none = none
  keep_found s (some found) =
      some (record s { out = if found then s.out ++ s.tag else s.out; tag = [] })

  -- The tag is complete: its terminator is written, and it is kept where it is allowed.
  abbrev pub keep_allowed : List ℕ → Option Strip → Option Strip
  keep_allowed set none = none
  keep_allowed set (some s) =
      if ltb (length s.tag) s.size then keep_found s (php_tag_find s.tag set) else none

  abbrev pub close_with : Option (List ℕ) → Strip → Option Strip
  close_with none s = some s
  close_with (some set) s = keep_allowed set (store 62 s)

  abbrev pub close_tag : Strip → Option Strip
  close_tag s = close_with allow (record s { lc = 62; in_q = 0; state = 0 })

  abbrev pub greater : List ℕ → Strip → Option Strip
  greater before s =
      if not (s.depth == 0)
      then some (record s { depth = s.depth - 1 })
      else if not (s.in_q == 0)
      then some s
      else if s.state == 1
      then close_tag s
      else if s.state == 2
      then (if is_zero s.br && not (s.lc == 34)
          then with_last before (λ b. some (if b == 63 then reset s else s))
          else some s)
      else if s.state == 3
      then some (reset s)
      else if s.state == 4
      then some (if ends_with 45 45 before then reset s else s)
      else some (emit 62 s)

  -- In PHP code a quote opens or closes a string, unless a backslash stands before it.
  abbrev pub quote_char : ℕ → List ℕ → Strip → Option Strip
  quote_char c before s =
      if s.state == 2
      then with_last before (λ b. some (
          if b == 92
          then s
          else if s.lc == c
          then record s { lc = 0 }
          else if not (s.lc == 92)
          then record s { lc = c }
          else s))
      else if s.state == 0
      then some (emit c s)
      else if is_some allow && s.state == 1
      then store c s
      else some s

  abbrev pub toggles : ℕ → List ℕ → Strip → Bool
  toggles c [] s = false
  toggles c (b ∷ before) s =
      not (s.state == 0) && ((s.state == 1 || not (b == 92)) && (s.in_q == 0 || c == s.in_q))

  abbrev pub toggle : ℕ → List ℕ → Option Strip → Option Strip
  toggle c before none = none
  toggle c before (some s) =
      some (if toggles c before s then record s { in_q = if s.in_q == 0 then c else 0 } else s)

  abbrev pub quote : ℕ → List ℕ → Strip → Option Strip
  quote c before s = if s.state == 4 then some s else toggle c before (quote_char c before s)

  abbrev pub bang : List ℕ → Strip → Option Strip
  bang before s =
      if s.state == 1
      then with_last before
          (λ b. if b == 60 then some (record s { state = 3; lc = 33 }) else regular 33 s)
      else regular 33 s

  abbrev pub dash : List ℕ → Strip → Option Strip
  dash before s =
      if s.state == 3 && ends_with 45 33 before then some (record s { state = 4 }) else regular 45 s

  abbrev pub letter_l : ℕ → List ℕ → Strip → Option Strip
  letter_l c before s =
      if s.state == 2 && is_xml before then some (record s { state = 1 }) else regular c s

  -- A letter E falls through to the case of the letter L.
  abbrev pub letter_e : ℕ → List ℕ → Strip → Option Strip
  letter_e c before s =
      if s.state == 3 && is_doctype before
      then some (record s { state = 1 })
      else letter_l c before s

  -- A question mark that opens no PHP code falls through to the case of the letter E.
  abbrev pub question : List ℕ → Strip → Option Strip
  question before s =
      if s.state == 1
      then with_last before
          (λ b. if b == 60 then some (record s { br = pos 0; state = 2 }) else letter_e 63 before s)
      else letter_e 63 before s
