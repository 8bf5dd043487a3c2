-- ===== src/Http/Strings.antt =====
-- httpserver/http_server.cc: what it uses of `std::string` and of `std::map` between strings. A string is
-- its bytes.
use cclab.Base.{
  ℕ, suc, ◌+◌, ◌≡◌, refl, sym, ◌∙◌, Bool, true, false, ◌&&◌, ◌||◌, Option, none, some, List, [],
  ◌∷◌, ◌++◌, ◌==◌, if◌then◌else◌, leb, arith, Bool-cases, inl, inr,
}
use mathlib.Core.Path.{ap₂}

abbrev pub Str : Type 0
Str = List ℕ

-- The first position of a byte, or the length.
abbrev pub index_of : ℕ → Str → ℕ
index_of c [] = 0
index_of c (x ∷ xs) = let rest = suc (index_of c xs) in if x == c then 0 else rest

abbrev pub is_same : Str → Str → Bool
is_same [] [] = true
is_same [] (y ∷ ys) = false
is_same (x ∷ xs) [] = false
is_same (x ∷ xs) (y ∷ ys) = x == y && is_same xs ys

-- `tolower` of a byte
abbrev pub to_lower : ℕ → ℕ
to_lower c = if leb 65 c && leb c 90 then c + 32 else c

abbrev pub lower : Str → Str
lower [] = []
lower (c ∷ cs) = to_lower c ∷ lower cs

abbrev pub starts_with : Str → Str → Bool
starts_with [] s = true
starts_with (x ∷ xs) [] = false
starts_with (x ∷ xs) (y ∷ ys) = x == y && starts_with xs ys

-- Whether `s.find(v)` finds something.
abbrev pub contains : Str → Str → Bool
contains v [] = starts_with v []
contains v (c ∷ cs) = starts_with v (c ∷ cs) || contains v cs

-- A map: a key has the value of its first entry.
abbrev pub Map : Type 0
Map = List (Str × Str)

abbrev pub find : Str → Map → Option Str
find k [] = none
find k ((k', v) ∷ m) = let rest = find k m in if is_same k k' then some v else rest

abbrev is_known : Option Str → Bool
is_known none = false
is_known (some v) = true

-- `std::map::insert` does nothing where there is such a key.
abbrev pub insert : Str → Str → Map → Map
insert k v m = if is_known (find k m) then m else m ++ ((k, v) ∷ [])

pub is_same_refl : (s : Str) → is_same s s ≡ true
is_same_refl [] = refl
is_same_refl (x ∷ xs) = ground (arith, is_same_refl xs)

pub is_same-eq : (s t : Str) → is_same s t ≡ true → s ≡ t
is_same-eq [] [] e = refl
is_same-eq [] (y ∷ ys) e = cc
is_same-eq (x ∷ xs) [] e = cc
is_same-eq (x ∷ xs) (y ∷ ys) e = ap₂ ◌∷◌ (ground arith) (is_same-eq xs ys (ground arith))

pub find-append_some :
    (k : Str) (v : Str) (m m' : Map) → find k m ≡ some v → find k (m ++ m') ≡ some v
find-append_some k v [] m' e = cc
find-append_some k v ((k', w) ∷ m) m' e = elim (Bool-cases (is_same k k')) [
  | inl y ↦ let f : some w ≡ some v = sym (rw y refl) ∙ e in rw y f
  | inr z ↦ let f : find k m ≡ some v = sym (rw z refl) ∙ e in rw z (find-append_some k v m m' f)
]

pub find-append_none : (k : Str) (m m' : Map) → find k m ≡ none → find k (m ++ m') ≡ find k m'
find-append_none k [] m' e = refl
find-append_none k ((k', w) ∷ m) m' e = elim (Bool-cases (is_same k k')) [
  | inl y ↦ let f : some w ≡ none = sym (rw y refl) ∙ e in cc
  | inr z ↦ let f : find k m ≡ none = sym (rw z refl) ∙ e in rw z (find-append_none k m m' f)
]

-- An entry stays as it is.
pub find-insert_keep :
    (k v k' w : Str) (m : Map) → find k m ≡ some v → find k (insert k' w m) ≡ some v
find-insert_keep k v k' w m e = elim (Bool-cases (is_known (find k' m))) [
  | inl y ↦ rw y e
  | inr z ↦ rw z (find-append_some k v m ((k', w) ∷ []) e)
]

pub insert_new : (k v : Str) (m : Map) → find k m ≡ none → insert k v m ≡ m ++ ((k, v) ∷ [])
insert_new k v m e = rw e refl

pub find-insert_new : (k v : Str) (m : Map) → find k m ≡ none → find k (insert k v m) ≡ some v
find-insert_new k v m e =
    rw (insert_new k v m e) (find-append_none k m ((k, v) ∷ []) e ∙ rw (is_same_refl k) refl)
