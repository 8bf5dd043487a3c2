-- ===== src/StripTags/Within.antt =====
-- php_strip_tags/php_strip_tags.c: the bounds that hold in the loop of `php_strip_tags_ex`, and the
-- cases of its switch that only append.
use cclab.Base.{
  ℕ, suc, ◌+◌, ◌≤◌, ◌<◌, ◌≡◌, refl, Bool, true, false, not, ◌&&◌, Option, none, some, List, [], ◌∷◌,
  ◌++◌, ◌==◌, if◌then◌else◌, leb, ltb, length, is_some, length-append, arith, lt→ltb,
}
use cclab.Base.Int.{ℤ}
use cclab.StripTags.Tag.{tolower, isspace, normalize, written, strstr, search, php_tag_find}
use cclab.StripTags.Machine.{Strip, emit, store, php_tag_buf_size}
use cclab.StripTags.Handler

written-some : (c : ℕ) (o : Option (List ℕ)) → is_some (written c o) ≡ is_some o
written-some c none = refl
written-some c (some n) = refl

-- The normalization of a tag that ends with `>` stays in the tag.
normalize-ends : (started : Bool) (t : List ℕ) → is_some (normalize started (t ++ (62 ∷ []))) ≡ true
unfolding normalize tolower
normalize-ends started [] = refl
normalize-ends started (x ∷ t) = ground (
  arith,
  written-some (tolower x) (normalize started (t ++ (62 ∷ []))),
  written-some (tolower x) (normalize true (t ++ (62 ∷ []))),
  normalize-ends started t,
  normalize-ends true t,
)

-- The loop has written fewer characters than it has read.
abbrev is_shorter : ℕ → Option (List ℕ) → Bool
is_shorter n none = true
is_shorter n (some norm) = ltb (length norm) n

written-is_shorter :
    (n c : ℕ) (o : Option (List ℕ))
    → is_shorter n o ≡ true
    → is_shorter (suc n) (written c o) ≡ true
written-is_shorter n c none e = refl
written-is_shorter n c (some norm) e = ground (arith, e)

is_shorter-suc : (n : ℕ) (o : Option (List ℕ)) → is_shorter n o ≡ true → is_shorter (suc n) o ≡ true
is_shorter-suc n none e = refl
is_shorter-suc n (some norm) e = ground (arith, e)

normalize-shorter :
    (started : Bool) (t : List ℕ) → is_shorter (length t) (normalize started t) ≡ true
unfolding normalize
normalize-shorter started [] = refl
normalize-shorter started (x ∷ t) =
    let a = normalize-shorter started t in
    let b = normalize-shorter true t in
    ground (
      arith,
      written-is_shorter (length t) (tolower x) (normalize started t) a,
      written-is_shorter (length t) (tolower x) (normalize true t) b,
      is_shorter-suc (length t) (normalize started t) a,
      is_shorter-suc (length t) (normalize true t) b,
    )

search-some :
    (len : ℕ) (set : List ℕ) (o : Option (List ℕ))
    → is_some o ≡ true
    → is_shorter len o ≡ true
    → (b : Bool) × (search len set o ≡ some b)
search-some len set none h e = cc
search-some len set (some norm) h e =
    let fits : leb (length norm + 2) (len + 1) ≡ true = ground (arith, e) in
    (strstr set (norm ++ (62 ∷ [])), rw fits refl)

pub php_tag_find-ends : (t set : List ℕ) → (b : Bool) × (php_tag_find (t ++ (62 ∷ [])) set ≡ some b)
unfolding php_tag_find
php_tag_find-ends [] set =
    search-some 1 set (normalize false (62 ∷ [])) (normalize-ends false [])
      (normalize-shorter false (62 ∷ []))
php_tag_find-ends (x ∷ t) set =
    let tag = x ∷ (t ++ (62 ∷ [])) in
    search-some (length tag) set (normalize false tag) (normalize-ends false (x ∷ t))
      (normalize-shorter false tag)

module _ (allow : Option (List ℕ)) where
  -- After `n` characters: what was written is no longer, and `tbuf` has room for a character more.
  abbrev pub Inv : ℕ → Strip → Type 0
  Inv n s =
      (length s.out + length s.tag ≤ n)
      × (is_some allow ≡ true → length s.tag < s.size)
      × (is_some allow ≡ true → 1024 ≤ s.size)

  abbrev pub Within : ℕ → Option Strip → Type 0
  Within n r = (s : Strip) × (r ≡ some s) × Inv n s

  pub if-Within :
      (n : ℕ) (b : Bool) {x y : Option Strip}
      → (b ≡ true → Within n x)
      → (b ≡ false → Within n y)
      → Within n (if b then x else y)
  if-Within n true f g = f refl
  if-Within n false f g = g refl

  pub if-Inv : (n : ℕ) (b : Bool) (x y : Strip) → Inv n x → Inv n y → Inv n (if b then x else y)
  if-Inv n true x y i j = i
  if-Inv n false x y i j = j

  pub kept : (n : ℕ) (s : Strip) → Inv n s → Within (suc n) (some s)
  kept n s i = (s, refl, (omega (arith, i.0), i.1, i.2))

  pub emit-Within : (n c : ℕ) (s : Strip) → Inv n s → Within (suc n) (some (emit c s))
  emit-Within n c s i =
      (emit c s, refl, (omega (arith, length-append s.out (c ∷ []), i.0), i.1, i.2))

  -- What `store` makes of the variables.
  abbrev grown : Strip → ℕ
  grown s =
      if leb php_tag_buf_size (length s.tag) then length s.tag + php_tag_buf_size + 1 else s.size

  abbrev pub stored : ℕ → Strip → Strip
  stored c s = record s { tag = s.tag ++ (c ∷ []); size = grown s }

  grown_room : (n : ℕ) (s : Strip) → is_some allow ≡ true → Inv n s → length s.tag + 1 < grown s
  grown_room n s a i = ground (arith, i.1 a, i.2 a)

  pub store-stored :
      (n c : ℕ) (s : Strip) → is_some allow ≡ true → Inv n s → store c s ≡ some (stored c s)
  store-stored n c s a i = rw (lt→ltb (length s.tag) (grown s) (omega (arith, grown_room n s a i)))

  pub Inv-stored : (n c : ℕ) (s : Strip) → is_some allow ≡ true → Inv n s → Inv (suc n) (stored c s)
  Inv-stored n c s a i = (
    omega (arith, length-append s.tag (c ∷ []), i.0),
    λ _. omega (arith, length-append s.tag (c ∷ []), grown_room n s a i),
    λ _. ground (arith, i.1 a, i.2 a),
  )

  pub store-Within :
      (n c : ℕ) (s : Strip) → is_some allow ≡ true → Inv n s → Within (suc n) (store c s)
  store-Within n c s a i = (stored c s, store-stored n c s a i, Inv-stored n c s a i)

  pub store_if :
      (n c : ℕ) (s : Strip) (b : Bool)
      → (is_some allow && b) ≡ true
      → Inv n s
      → Within (suc n) (store c s)
  store_if n c s b h i = store-Within n c s (ground arith) i

  pub regular-Within : (n c : ℕ) (s : Strip) → Inv n s → Within (suc n) (Handler.regular allow c s)
  regular-Within n c s i =
      if-Within (suc n) (s.state == 0) (λ _. emit-Within n c s i)
        λ _.
          if-Within (suc n) (is_some allow && s.state == 1) (λ a. store_if n c s (s.state == 1) a i)
            λ _. kept n s i

  pub less-Within :
      (n : ℕ) (spaces : Bool) (after : List ℕ) (s : Strip)
      → Inv n s
      → Within (suc n) (Handler.less allow spaces after s)
  less-Within n spaces after s i =
      if-Within (suc n) (not (s.in_q == 0)) (λ _. kept n s i)
        λ _.
          if-Within (suc n) (isspace (Handler.peek allow after) && not spaces)
            (λ _. regular-Within n 60 s i)
            λ _.
              if-Within (suc n) (s.state == 0)
                (λ _.
                  if-Within (suc n) (is_some allow)
                    (λ a. store-Within n 60 (record s { lc = 60; state = 1 }) a i)
                    λ _. kept n (record s { lc = 60; state = 1 }) i)
                λ _.
                  if-Within (suc n) (s.state == 1)
                    (λ _. kept n (record s { depth = s.depth + 1 }) i) λ _. kept n s i

  pub paren-Within :
      (n : ℕ) (count : ℤ → ℤ) (c : ℕ) (s : Strip)
      → Inv n s
      → Within (suc n) (Handler.paren allow count c s)
  paren-Within n count c s i =
      if-Within (suc n) (s.state == 2)
        (λ _.
          kept n
            (if not (s.lc == 34) && not (s.lc == 39)
              then record s { lc = c; br = count s.br }
              else s)
            (if-Inv n (not (s.lc == 34) && not (s.lc == 39)) (record s { lc = c; br = count s.br })
              s i i))
        λ _.
          if-Within (suc n) (is_some allow && s.state == 1) (λ a. store_if n c s (s.state == 1) a i)
            λ _. if-Within (suc n) (s.state == 0) (λ _. emit-Within n c s i) λ _. kept n s i
