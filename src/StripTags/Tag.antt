-- ===== src/StripTags/Tag.antt =====
-- php_strip_tags/php_strip_tags.c: the characters, `php_strtolower` and `php_tag_find`. Characters are
-- their codes, and `isspace` and `tolower` are those of the C locale.
use cclab.Base.{
  ℕ, zero, suc, ◌+◌, Bool, true, false, not, ◌&&◌, ◌||◌, Option, none, some, List, [], ◌∷◌, ◌++◌,
  ◌==◌, if◌then◌else◌, leb, length,
}

unfoldable pub isspace : ℕ → Bool
isspace c = c == 32 || (leb 9 c && leb c 13)

unfoldable pub tolower : ℕ → ℕ
tolower c = if leb 65 c && leb c 90 then c + 32 else c

-- `php_strtolower` on the first `len` characters
unfoldable pub php_strtolower : List ℕ → ℕ → List ℕ
php_strtolower s zero = s
php_strtolower [] (suc len) = []
php_strtolower (c ∷ s) (suc len) = tolower c ∷ php_strtolower s len

-- `*(n++) = c`, before what is written later
abbrev pub written : ℕ → Option (List ℕ) → Option (List ℕ)
written c none = none
written c (some n) = some (c ∷ n)

-- The loop of `php_tag_find` from `t`: what it writes to `norm`. `none`: no `>` ends the tag, and the
-- loop leaves it. `started` is the source's `state`.
unfoldable pub normalize : (started : Bool) → List ℕ → Option (List ℕ)
normalize started [] = none
normalize started (x ∷ t) =
    let c = tolower x in
    let plain = normalize started t in
    let word = normalize true t in
    if c == 60
    then written c plain
    else if c == 62
    then some []
    else if not (isspace c)
    then (if not (c == 47) then written c word else word)
    else if started
    then some []
    else plain

unfoldable pub is_prefix : List ℕ → List ℕ → Bool
is_prefix [] ys = true
is_prefix (x ∷ xs) [] = false
is_prefix (x ∷ xs) (y ∷ ys) = (x == y) && is_prefix xs ys

-- `strstr(set, norm) != NULL`
unfoldable pub strstr : List ℕ → List ℕ → Bool
strstr [] norm = is_prefix norm []
strstr (x ∷ set) norm = is_prefix norm (x ∷ set) || strstr set norm

-- `norm` has `len + 1` bytes, for what the loop writes, a `>` and the NUL; a write behind it is `none`.
abbrev pub search : (len : ℕ) → List ℕ → Option (List ℕ) → Option Bool
search len set none = none
search len set (some norm) =
    if leb (length norm + 2) (len + 1) then some (strstr set (norm ++ (62 ∷ []))) else none

-- `php_tag_find` of the tag with its `len` characters
unfoldable pub php_tag_find : List ℕ → List ℕ → Option Bool
php_tag_find [] set = some false
php_tag_find (x ∷ tag) set = search (length (x ∷ tag)) set (normalize false (x ∷ tag))
