-- ===== src/StripTags/Machine.antt =====
-- php_strip_tags/php_strip_tags.c: the variables of `php_strip_tags_ex` and the writes through its
-- pointers.
use cclab.Base.{
  ℕ, zero, suc, ◌+◌, Bool, true, false, ◌&&◌, Option, none, some, List, [], ◌∷◌, ◌++◌, ◌==◌,
  if◌then◌else◌, ltb, leb, length,
}
use cclab.Base.Int.{ℤ, pos, negsuc}
use cclab.StripTags.Tag.{tolower}

-- `out` is what stands from `rbuf` to `rp`, `tag` what stands from `tbuf` to `tp`, and `size` the bytes
-- allocated at `tbuf`.
pub record Strip : Type 0 where
  pub out : List ℕ
  pub tag : List ℕ
  pub size : ℕ
  pub br : ℤ
  pub depth : ℕ
  pub in_q : ℕ
  pub state : ℕ
  pub lc : ℕ

abbrev pub php_tag_buf_size : ℕ
php_tag_buf_size = 1023

abbrev pub is_zero : ℤ → Bool
is_zero (pos n) = n == 0
is_zero (negsuc n) = false

-- `br++` and `br--`
abbrev pub increase : ℤ → ℤ
increase (pos n) = pos (n + 1)
increase (negsuc zero) = pos 0
increase (negsuc (suc n)) = negsuc n

abbrev pub decrease : ℤ → ℤ
decrease (pos zero) = negsuc 0
decrease (pos (suc n)) = pos n
decrease (negsuc n) = negsuc (n + 1)

-- `*(rp++) = c`
abbrev pub emit : ℕ → Strip → Strip
emit c s = record s { out = s.out ++ (c ∷ []) }

-- `*(tp++) = c`, once `tbuf` is reallocated where it is full; `none` is a write behind its end.
abbrev pub store : ℕ → Strip → Option Strip
store c s =
    let size =
      if leb php_tag_buf_size (length s.tag) then length s.tag + php_tag_buf_size + 1 else s.size in
    if ltb (length s.tag) size
    then some (record s { tag = s.tag ++ (c ∷ []); size = size })
    else none

-- `in_q = state = 0; tp = tbuf;`
abbrev pub reset : Strip → Strip
reset s = record s { in_q = 0; state = 0; tag = [] }

-- The characters before `p` are a list, the nearest first. `f` is given `*(p-1)`; where `p` is `buf`,
-- the read is outside the buffer.
abbrev pub with_last : List ℕ → (ℕ → Option Strip) → Option Strip
with_last [] f = none
with_last (b ∷ before) f = f b

-- `p >= buf + 2 && *(p-1) == a && *(p-2) == b`
abbrev pub ends_with : ℕ → ℕ → List ℕ → Bool
ends_with a b (x ∷ y ∷ before) = (x == a) && (y == b)
ends_with a b _ = false

-- The nearest characters, in lower case, are `word`.
abbrev pub behind : List ℕ → List ℕ → Bool
behind [] before = true
behind (x ∷ word) [] = false
behind (x ∷ word) (y ∷ before) = (tolower y == x) && behind word before

-- `p > buf+6` and "doctyp" stands before `p`; `p > buf+2` and "xm" does.
abbrev pub is_doctype : List ℕ → Bool
is_doctype before = ltb 6 (length before) && behind (112 ∷ 121 ∷ 116 ∷ 99 ∷ 111 ∷ 100 ∷ []) before

abbrev pub is_xml : List ℕ → Bool
is_xml before = ltb 2 (length before) && behind (109 ∷ 120 ∷ []) before
