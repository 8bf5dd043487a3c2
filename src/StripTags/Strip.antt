-- ===== src/StripTags/Strip.antt =====
-- php_strip_tags/php_strip_tags.c: `php_strip_tags_ex`. `none` is an access outside a buffer.
use cclab.Base.{
  ◌+◌, ℕ, Bool, false, ◌||◌, Option, none, some, List, [], ◌∷◌, ◌++◌, ◌==◌, if◌then◌else◌, ltb,
  length,
}
use cclab.Base.Int.{pos}
use cclab.StripTags.Tag.{php_strtolower}
use cclab.StripTags.Machine.{Strip, increase, decrease}
use cclab.StripTags.Handler

-- The cases of the switch.
pub data Kind : Type 0 where
  nul less open_paren close_paren greater quote bang question dash letter_e letter_l regular : Kind

unfoldable pub kind : ℕ → Kind
kind c =
    if c == 0
    then Kind.nul
    else if c == 60
    then Kind.less
    else if c == 40
    then Kind.open_paren
    else if c == 41
    then Kind.close_paren
    else if c == 62
    then Kind.greater
    else if c == 34 || c == 39
    then Kind.quote
    else if c == 33
    then Kind.bang
    else if c == 45
    then Kind.dash
    else if c == 63
    then Kind.question
    else if c == 69 || c == 101
    then Kind.letter_e
    else if c == 108 || c == 76
    then Kind.letter_l
    else Kind.regular

module _ (allow : Option (List ℕ)) (spaces : Bool) where
  -- The switch, at the character `c` between those before it, the nearest first, and those after it.
  abbrev pub step : Kind → ℕ → (before after : List ℕ) → Strip → Option Strip
  step Kind.nul c before after s = some s
  step Kind.less c before after s = Handler.less allow spaces after s
  step Kind.open_paren c before after s = Handler.paren allow increase c s
  step Kind.close_paren c before after s = Handler.paren allow decrease c s
  step Kind.greater c before after s = Handler.greater allow before s
  step Kind.quote c before after s = Handler.quote allow c before s
  step Kind.bang c before after s = Handler.bang allow before s
  step Kind.question c before after s = Handler.question allow before s
  step Kind.dash c before after s = Handler.dash allow before s
  step Kind.letter_e c before after s = Handler.letter_e allow c before s
  step Kind.letter_l c before after s = Handler.letter_l allow c before s
  step Kind.regular c before after s = Handler.regular allow c s

  -- The loop, from `p` on.
  unfoldable pub strip_loop : (before : List ℕ) → List ℕ → Strip → Option Strip
  strip_loop before [] s = some s
  strip_loop before (c ∷ after) s = elim (step (kind c) c before after s) [
    | none ↦ none
    | some s' ↦ strip_loop (c ∷ before) after s'
  ]

-- The variables before the loop.
abbrev pub start : Option (List ℕ) → ℕ → Strip
start allow state = record {
  out = [];
  tag = [];
  size = elim allow [ none ↦ 0 | some _ ↦ 1024 ];
  br = pos 0;
  depth = 0;
  in_q = 0;
  state = state;
  lc = 0;
}

-- The terminator is written where it has room, and the length and the state are returned.
abbrev pub finish : List ℕ → Option Strip → Option (ℕ × List ℕ × ℕ)
finish text none = none
finish text (some s) =
    some
      (length s.out, if ltb (length s.out) (length text) then s.out ++ (0 ∷ []) else s.out, s.state)

abbrev pub has_nul : List ℕ → Bool
has_nul [] = false
has_nul (c ∷ text) = c == 0 || has_nul text

abbrev pub lower : Option (List ℕ) → ℕ → Option (List ℕ)
lower none len = none
lower (some set) len = some (php_strtolower set len)

-- `php_strtolower(allow, allow_len)` goes on behind the NUL of `allow`.
abbrev pub is_past : Option (List ℕ) → ℕ → Bool
is_past none len = false
is_past (some set) len = ltb (length set + 1) len

-- `php_strip_tags_ex` on the `len` bytes of `rbuf`, with the state before. The result has the length,
-- what the call leaves at the begin of `rbuf`, and the state. The copy that `strndup` makes ends at a
-- NUL, and the loop does not: `none`; so is an `allow_len` beyond the NUL of `allow`.
unfoldable pub php_strip_tags_ex : List ℕ → ℕ → Option (List ℕ) → ℕ → Bool → Option (ℕ × List ℕ × ℕ)
php_strip_tags_ex text state allow allow_len spaces =
    let allowed = lower allow allow_len in
    if has_nul text || is_past allow allow_len
    then none
    else finish text (strip_loop allowed spaces [] text (start allowed state))
