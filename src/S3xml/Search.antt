-- ===== src/S3xml/Search.antt =====
-- s3xml/s3_xml.cc: lists of nodes, as `FindFirstNode` and `NextSibling` search them.
use cclab.Base.{
  ◌<◌, ◌≡◌, refl, ◌∙◌, ap, ◌⊎◌, inl, inr, true, false, Option, some, List, [], ◌∷◌, ◌==◌,
  if◌then◌else◌, map, Bool-cases, arith, length,
}
use cclab.Base.Pointers.{Ptr, has, Distinct}
use cclab.Http.Strings.{Str, is_same, lower}
use cclab.S3xml.Laws.{is_named, first_named, behind}

-- The values of the entries that have the name, in whatever case.
abbrev pub named : Str → List (Str × Str) → List Str
named name [] = []
named name ((k, v) ∷ es) =
    let rest = named name es in if is_same (lower name) (lower k) then v ∷ rest else rest

-- The nodes' names and values are read as the entries.
abbrev pub AreRead : (name value : Ptr → Option Str) → List Ptr → List (Str × Str) → Type 0
AreRead name value [] [] = Unit
AreRead name value [] (e ∷ es) = ⊥
AreRead name value (n ∷ ns) [] = ⊥
AreRead name value (n ∷ ns) ((k, v) ∷ es) =
    (name n ≡ some k) × (value n ≡ some v) × AreRead name value ns es

-- An entry whose name and value can both be read.
abbrev pub readable : Str × Str → Option Str × Option Str
readable (k, v) = (some k, some v)

pub entries-AreRead :
    (f g : Ptr → Option Str) (ns : List Ptr) (es : List (Str × Str))
    → map (λ n. (f n, g n)) ns ≡ map readable es
    → AreRead f g ns es × (length ns ≡ length es)
entries-AreRead f g [] [] e = (tt, refl)
entries-AreRead f g [] (_ ∷ _) e = absurd cc
entries-AreRead f g (n ∷ ns) [] e = absurd cc
entries-AreRead f g (n ∷ ns) ((k, v) ∷ es) e =
    let (r, size) = entries-AreRead f g ns es cc in ((cc, cc, r), omega (arith, size))

pub AreRead-same :
    (f g f' g' : Ptr → Option Str) (ns : List Ptr) (es : List (Str × Str))
    → ((n : Ptr) → has n ns ≡ true → (f' n ≡ f n) × (g' n ≡ g n))
    → AreRead f g ns es
    → AreRead f' g' ns es
AreRead-same f g f' g' [] [] e r = tt
AreRead-same f g f' g' [] (_ ∷ _) e r = absurd r
AreRead-same f g f' g' (n ∷ ns) [] e r = absurd r
AreRead-same f g f' g' (n ∷ ns) ((k, v) ∷ es) e (a, b, r) =
    let (p, q) = e n (ground arith) in
    (p ∙ a, q ∙ b, AreRead-same f g f' g' ns es (λ m i. e m (ground arith)) r)

-- A search in nodes that are read as the entries, up to the node that it finds.
pub record IsHit (name : Str) (f g : Ptr → Option Str) (ns : List Ptr) (es : List (Str × Str))
    (found : Ptr) : Type 0 where
  pub value : Str
  pub entries : List (Str × Str)
  pub inside : has found ns ≡ true
  pub holds : g found ≡ some value
  pub values : named name es ≡ value ∷ named name entries
  pub rest : AreRead f g (behind found ns) entries
  pub shorter : length (behind found ns) < length ns

pub search_lem :
    (name : Str) (f g : Ptr → Option Str) (ns : List Ptr) (es : List (Str × Str))
    → AreRead f g ns es
    → ((first_named name f ns ≡ 0) × (named name es ≡ []))
      ⊎ (is_named name (f (first_named name f ns)) ≡ true)
        × IsHit name f g ns es (first_named name f ns)
search_lem name f g [] [] r = inl (refl, refl)
search_lem name f g [] (_ ∷ _) r = absurd r
search_lem name f g (n ∷ ns) [] r = absurd r
search_lem name f g (n ∷ ns) ((k, v) ∷ es) (a, b, r) =
    elim (Bool-cases (is_same (lower name) (lower k))) [
      | inl y ↦
          let hit : is_named name (f n) ≡ true = ap (is_named name) a ∙ y in
          let here : (n == n) ≡ true = ground arith in
          inr (
            rw hit (
              hit,
              record {
                value = v;
                entries = es;
                inside = ground arith;
                holds = b;
                values = rw y refl;
                rest = rw here r;
                shorter = rw here (omega arith);
              },
            ))
      | inr z ↦
          let miss : is_named name (f n) ≡ false = ap (is_named name) a ∙ z in
          elim (search_lem name f g ns es r) [
            | inl (x, y) ↦ inl (rw miss x, rw z y)
            | inr (x, y) ↦
                let c = first_named name f ns in
                let other : (n == c) ≡ false = elim (Bool-cases (n == c)) [
                  | inl i ↦ let e : n ≡ c = ground arith in absurd (cc (miss, x, e))
                  | inr j ↦ j
                ] in
                inr (
                  rw miss (
                    x,
                    record {
                      value = y.value;
                      entries = y.entries;
                      inside = ground (arith, y.inside);
                      holds = y.holds;
                      values = rw z y.values;
                      rest = rw other y.rest;
                      shorter = rw other (omega (arith, y.shorter));
                    },
                  ))
          ]
    ]

pub has-behind : (a c : Ptr) (ns : List Ptr) → has a (behind c ns) ≡ true → has a ns ≡ true
has-behind a c [] i = i
has-behind a c (n ∷ ns) i = elim (Bool-cases (n == c)) [
  | inl y ↦ ground (arith, y, i)
  | inr z ↦ ground (arith, z, i, has-behind a c ns)
]

-- What stands behind a node that stands behind another.
pub behind-behind :
    (a c : Ptr) (ns : List Ptr)
    → Distinct ns
    → has a (behind c ns) ≡ true
    → behind a ns ≡ behind a (behind c ns)
behind-behind a c [] d i = refl
behind-behind a c (n ∷ ns) d i = elim (Bool-cases (n == c)) [
  | inl y ↦ let e : (n == a) ≡ false = ground (arith, y, i, d.0) in rw (y, e) refl
  | inr z ↦
      let j : has a (behind c ns) ≡ true = ground (arith, z, i) in
      let e : (n == a) ≡ false = ground (arith, d.0, has-behind a c ns j) in
      rw (z, e) (behind-behind a c ns d.1 j)
]
