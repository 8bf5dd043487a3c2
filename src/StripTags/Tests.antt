-- ===== src/StripTags/Tests.antt =====
-- `php_strip_tags_ex` at concrete texts, and the theorems at them.
use cclab.Base.{ℕ, ◌≡◌, ◌≤◌, refl, true, false, none, some, List, [], ◌∷◌, length}
use cclab.StripTags.Tag.{
  tolower, isspace, normalize, is_prefix, strstr, php_strtolower, php_tag_find,
}
use cclab.StripTags.Strip.{kind, strip_loop, php_strip_tags_ex}
use cclab.StripTags.Safety.{strip_safe}
use cclab.StripTags.Plain.{strip-IsPlain}
use cclab.StripTags.Clean.{contains, strip-clean}

-- a<B x>c
abbrev bold : List ℕ
bold = 97 ∷ 60 ∷ 66 ∷ 32 ∷ 120 ∷ 62 ∷ 99 ∷ []

-- <b>
abbrev allow_bold : List ℕ
allow_bold = 60 ∷ 98 ∷ 62 ∷ []

all_stripped : php_strip_tags_ex bold 0 none 0 false ≡ some (2, 97 ∷ 99 ∷ 0 ∷ [], 0)
unfolding php_strip_tags_ex strip_loop kind isspace
all_stripped = refl

bold_kept : php_strip_tags_ex bold 0 (some allow_bold) 3 false ≡ some (7, bold, 0)
unfolding php_strip_tags_ex strip_loop kind isspace tolower normalize is_prefix strstr
    php_strtolower php_tag_find
bold_kept = refl

-- A quote in state 2 at the begin of the text: the byte before the copy is read.
quote_read_before : php_strip_tags_ex (34 ∷ []) 2 none 0 false ≡ none
unfolding php_strip_tags_ex strip_loop kind
quote_read_before = refl

-- a)"!-?El>
abbrev marks : List ℕ
marks = 97 ∷ 41 ∷ 34 ∷ 33 ∷ 45 ∷ 63 ∷ 69 ∷ 108 ∷ 62 ∷ []

strip_safe_example :
    (n : ℕ) × (written : List ℕ) × (state : ℕ) × (php_strip_tags_ex bold 0 (some allow_bold) 3 false
      ≡ some (n, written, state))
    × (n ≤ length bold)
    × (length written ≤ length bold)
strip_safe_example = strip_safe bold (some allow_bold) 3 false refl refl

plain_text_stays :
    php_strip_tags_ex marks 0 (some allow_bold) 3 false ≡ some (length marks, marks, 0)
plain_text_stays =
    strip-IsPlain marks (some allow_bold) 3 false
      (
        refl,
        refl,
        (
          refl,
          refl,
          (
            refl,
            refl,
            (refl, refl, (refl, refl, (refl, refl, (refl, refl, (refl, refl, (refl, refl, tt)))))),
          ),
        ),
      )
      refl

strip-clean_example :
    (n : ℕ) × (written : List ℕ) × (state : ℕ) × (php_strip_tags_ex bold 0 none 0 true
      ≡ some (n, written, state))
    × (contains 60 written ≡ false)
strip-clean_example = strip-clean bold 0 refl
