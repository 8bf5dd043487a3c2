-- ===== src/Base/Ring.antt =====
-- Circular doubly linked lists: the fields `next` and `prev` as functions of the address.
use mathlib.Core.Path.{◌≡◌, ◌∙◌}
use mathlib.Core.Logic.{inl, inr}
use mathlib.Core.Bool.{true, false, ◌||◌}
use mathlib.Core.List.{List, [], ◌∷◌, ◌++◌, append-nil}
use native.Mathlib.Omega.{arith}
use cclab.Base.Tests.{◌==◌, Bool-cases}
use cclab.Base.Pointers.{Ptr, update, has, Distinct, has-append, delete, Distinct-parts}

-- `next` leads from `a` through `xs` to `b`, and `prev` leads back. A ring is a segment from its
-- head to its head.
abbrev pub Seg : (next prev : Ptr → Ptr) → Ptr → List Ptr → Ptr → Type 0
Seg n v a [] b = (n a ≡ b) × (v b ≡ a)
Seg n v a (q ∷ xs) b = (n a ≡ q) × (v q ≡ a) × Seg n v q xs b

-- The last of the addresses, or `a`.
abbrev pub last_or : Ptr → List Ptr → Ptr
last_or a [] = a
last_or a (q ∷ xs) = last_or q xs

abbrev pub first_or : List Ptr → Ptr → Ptr
first_or [] b = b
first_or (q ∷ xs) b = q

pub Seg-frame :
    (n v n' v' : Ptr → Ptr) (a : Ptr) (xs : List Ptr) (b : Ptr)
    → n' a ≡ n a
    → v' b ≡ v b
    → ((q : Ptr) → has q xs ≡ true → (n' q ≡ n q) × (v' q ≡ v q))
    → Seg n v a xs b
    → Seg n' v' a xs b
Seg-frame n v n' v' a [] b na vb same (e, f) = (na ∙ e, vb ∙ f)
Seg-frame n v n' v' a (q ∷ xs) b na vb same (e, f, s) =
    let here : (n' q ≡ n q) × (v' q ≡ v q) = same q (ground arith) in
    (na ∙ e, here.1 ∙ f, Seg-frame n v n' v' q xs b here.0 vb (λ p m. same p (ground arith)) s)

pub Seg-append :
    (n v : Ptr → Ptr) (a : Ptr) (xs : List Ptr) (q : Ptr) (ys : List Ptr) (b : Ptr)
    → Seg n v a xs q
    → Seg n v q ys b
    → Seg n v a (xs ++ (q ∷ ys)) b
Seg-append n v a [] q ys b (e, f) t = (e, f, t)
Seg-append n v a (p ∷ xs) q ys b (e, f, s) t = (e, f, Seg-append n v p xs q ys b s t)

pub Seg-split :
    (n v : Ptr → Ptr) (a : Ptr) (xs : List Ptr) (q : Ptr) (ys : List Ptr) (b : Ptr)
    → Seg n v a (xs ++ (q ∷ ys)) b
    → Seg n v a xs q × Seg n v q ys b
Seg-split n v a [] q ys b (e, f, t) = ((e, f), t)
Seg-split n v a (p ∷ xs) q ys b (e, f, s) =
    let (s₁, t) = Seg-split n v p xs q ys b s in ((e, f, s₁), t)

pub Seg-next :
    (n v : Ptr → Ptr) (a : Ptr) (xs : List Ptr) (b : Ptr) → Seg n v a xs b → n a ≡ first_or xs b
Seg-next n v a [] b s = s.0
Seg-next n v a (q ∷ xs) b s = s.0

pub Seg-prev :
    (n v : Ptr → Ptr) (a : Ptr) (xs : List Ptr) (b : Ptr) → Seg n v a xs b → v b ≡ last_or a xs
Seg-prev n v a [] b s = s.1
Seg-prev n v a (q ∷ xs) b s = Seg-prev n v q xs b s.2

pub Seg-last :
    (n v : Ptr → Ptr) (a : Ptr) (xs : List Ptr) (b : Ptr) → Seg n v a xs b → n (last_or a xs) ≡ b
Seg-last n v a [] b s = s.0
Seg-last n v a (q ∷ xs) b s = Seg-last n v q xs b s.2

pub last-has : (a : Ptr) (xs : List Ptr) → has (last_or a xs) (a ∷ xs) ≡ true
last-has a [] = ground arith
last-has a (q ∷ xs) = ground (arith, last-has q xs)

-- The segment ends at another address.
pub Seg-end :
    (n v n' v' : Ptr → Ptr) (a : Ptr) (ys : List Ptr) (c q : Ptr)
    → Distinct (a ∷ ys)
    → n' (last_or a ys) ≡ q
    → v' q ≡ last_or a ys
    → ((p : Ptr) → has p ys ≡ true → v' p ≡ v p)
    → ((p : Ptr) → has p (a ∷ ys) ≡ true → (p == last_or a ys) ≡ false → n' p ≡ n p)
    → Seg n v a ys c
    → Seg n' v' a ys q
Seg-end n v n' v' a [] c q d nl vq sv sn s = (nl, vq)
Seg-end n v n' v' a (p ∷ ys) c q d nl vq sv sn (e, f, s) =
    let apart : (a == last_or p ys) ≡ false = ground (arith, last-has p ys) in
    (
      sn a (ground arith) apart ∙ e,
      sv p (ground arith) ∙ f,
      Seg-end n v n' v' p ys c q d.1 nl vq (λ r m. sv r (ground arith))
          (λ r m ne. sn r (ground arith) ne) s,
    )

-- The segment begins at another address.
pub Seg-start :
    (n v n' v' : Ptr → Ptr) (c q : Ptr) (zs : List Ptr) (b : Ptr)
    → Distinct zs
    → has b zs ≡ false
    → n' q ≡ first_or zs b
    → v' (first_or zs b) ≡ q
    → ((p : Ptr) → has p zs ≡ true → n' p ≡ n p)
    → ((p : Ptr) → (has p zs || p == b) ≡ true → (p == first_or zs b) ≡ false → v' p ≡ v p)
    → Seg n v c zs b
    → Seg n' v' q zs b
Seg-start n v n' v' c q [] b d out nq vf sn sv s = (nq, vf)
Seg-start n v n' v' c q (p ∷ zs) b d out nq vf sn sv (e, f, s) = (
  nq,
  vf,
  Seg-frame n v n' v' p zs b (sn p (ground arith)) (sv b (ground arith) (ground arith))
      (λ r m. (sn r (ground arith), sv r (ground arith) (ground arith))) s,
)

-- An address of the list stands between two parts of it.
pub has-split :
    (q : Ptr) (ps : List Ptr)
    → has q ps ≡ true
    → (xs : List Ptr) × (ys : List Ptr) × (ps ≡ xs ++ (q ∷ ys)) × (delete q ps ≡ xs ++ ys)
has-split q [] h = cc
has-split q (p ∷ ps) h = elim (Bool-cases (q == p)) [
  | inl y ↦ ([], ps, ground arith, rw y)
  | inr z ↦ let (xs, ys, e, f) = has-split q ps (ground arith) in (p ∷ xs, ys, rw e, rw (z, f))
]

-- What `q->prev->next = q->next; q->next->prev = q->prev;` makes of `next` and `prev`.
abbrev pub unlink_next : (next prev : Ptr → Ptr) → Ptr → Ptr → Ptr
unlink_next n v q = update n (v q) (n q)

abbrev pub unlink_prev : (next prev : Ptr → Ptr) → Ptr → Ptr → Ptr
unlink_prev n v q = let n' = unlink_next n v q in update v (n' q) (v q)

pub unlink_parts :
    (n v : Ptr → Ptr) (a : Ptr) (xs : List Ptr) (q : Ptr) (ys : List Ptr)
    → Distinct (a ∷ (xs ++ (q ∷ ys)))
    → Seg n v a (xs ++ (q ∷ ys)) a
    → Seg (unlink_next n v q) (unlink_prev n v q) a (xs ++ ys) a
unlink_parts n v a xs q [] d s =
    let (before, after) = Seg-split n v a xs q [] a s in
    let (dx, dq, apart) = Distinct-parts xs (q ∷ []) d.1 in
    let vq : v q ≡ last_or a xs = Seg-prev n v a xs q before in
    let out : has a (xs ++ (q ∷ [])) ≡ false = d.0 in
    let ne : (q == last_or a xs) ≡ false =
      ground (arith, has-append a xs (q ∷ []), last-has a xs, apart (last_or a xs)) in
    rw (append-nil xs) (
      Seg-end n v (unlink_next n v q) (unlink_prev n v q) a xs q a
        (ground (arith, has-append a xs (q ∷ [])), dx) (ground arith) (ground arith)
        (λ p m. ground (arith, has-append a xs (q ∷ []), apart p)) (λ p m e. ground arith) before)
unlink_parts n v a xs q (r ∷ ys) d s =
    let (before, after) = Seg-split n v a xs q (r ∷ ys) a s in
    let (dx, dq, apart) = Distinct-parts xs (q ∷ r ∷ ys) d.1 in
    let vq : v q ≡ last_or a xs = Seg-prev n v a xs q before in
    let out : has a (xs ++ (q ∷ r ∷ ys)) ≡ false = d.0 in
    let apart_a : has a (q ∷ r ∷ ys) ≡ false = ground (arith, has-append a xs (q ∷ r ∷ ys)) in
    let apart_last : has (last_or a xs) (q ∷ r ∷ ys) ≡ false =
      ground (arith, last-has a xs, apart (last_or a xs)) in
    Seg-append (unlink_next n v q) (unlink_prev n v q) a xs r ys a
      (Seg-end n v (unlink_next n v q) (unlink_prev n v q) a xs q r
        (ground (arith, has-append a xs (q ∷ r ∷ ys)), dx) (ground arith) (ground arith)
        (λ p m. ground (arith, apart p)) (λ p m e. ground arith) before)
      (Seg-frame n v (unlink_next n v q) (unlink_prev n v q) r ys a (ground arith) (ground arith)
        (λ p m. ground (arith)) after.2)

pub unlink-Seg :
    (n v : Ptr → Ptr) (a : Ptr) (ps : List Ptr) (q : Ptr)
    → Distinct (a ∷ ps)
    → has q ps ≡ true
    → Seg n v a ps a
    → Seg (unlink_next n v q) (unlink_prev n v q) a (delete q ps) a
unlink-Seg n v a ps q d m s =
    let (xs, ys, e, f) = has-split q ps m in
    rw f (unlink_parts n v a xs q ys (rw e at d) (rw e at s))

-- `q->next = a->next; q->prev = a; a->next->prev = q; a->next = q;`
abbrev pub front_next : (next : Ptr → Ptr) → (a q : Ptr) → Ptr → Ptr
front_next n a q = update (update n q (n a)) a q

abbrev pub front_prev : (next prev : Ptr → Ptr) → (a q : Ptr) → Ptr → Ptr
front_prev n v a q = update (update v q a) (update n q (n a) a) q

pub front-Seg :
    (n v : Ptr → Ptr) (a : Ptr) (ps : List Ptr) (q : Ptr)
    → Distinct (a ∷ ps)
    → has q (a ∷ ps) ≡ false
    → Seg n v a ps a
    → Seg (front_next n a q) (front_prev n v a q) a (q ∷ ps) a
front-Seg n v a [] q d out s = (ground arith, ground arith, (ground arith, ground arith))
front-Seg n v a (p ∷ ps) q d out s = (
  ground arith,
  ground arith,
  Seg-start n v (front_next n a q) (front_prev n v a q) a q (p ∷ ps) a d.1 d.0 (ground arith)
      (ground arith) (λ r m. ground arith) (λ r m e. ground arith) s,
)

-- `q` comes before `a`, where `rear` is `a->prev`:
-- `rear->next->prev = q; q->next = rear->next; q->prev = rear; rear->next = q;`
abbrev pub back_next : (next prev : Ptr → Ptr) → (a q : Ptr) → Ptr → Ptr
back_next n v a q = update (update n q (n (v a))) (v a) q

abbrev pub back_prev : (next prev : Ptr → Ptr) → (a q : Ptr) → Ptr → Ptr
back_prev n v a q = update (update v (n (v a)) q) q (v a)

pub back-Seg :
    (n v : Ptr → Ptr) (a : Ptr) (ps : List Ptr) (q : Ptr)
    → Distinct (a ∷ ps)
    → has q (a ∷ ps) ≡ false
    → Seg n v a ps a
    → Seg (back_next n v a q) (back_prev n v a q) a (ps ++ (q ∷ [])) a
back-Seg n v a ps q d out s =
    let vl : v a ≡ last_or a ps = Seg-prev n v a ps a s in
    let nl : n (last_or a ps) ≡ a = Seg-last n v a ps a s in
    let mem : has (last_or a ps) (a ∷ ps) ≡ true = last-has a ps in
    Seg-append (back_next n v a q) (back_prev n v a q) a ps q [] a
      (Seg-end n v (back_next n v a q) (back_prev n v a q) a ps a q d (ground arith) (ground arith)
        (λ p m. ground arith) (λ p m e. ground arith) s)
      (ground arith, ground arith)

-- The list without its first address, which becomes a ring of its own head.
pub next-Seg :
    (n v : Ptr → Ptr) (a q : Ptr) (ps : List Ptr)
    → Distinct (a ∷ q ∷ ps)
    → Seg n v a (q ∷ ps) a
    → Seg (update n (v a) q) (update v q (v a)) q ps q
next-Seg n v a q ps d s =
    let vl : v a ≡ last_or q ps = Seg-prev n v a (q ∷ ps) a s in
    Seg-end n v (update n (v a) q) (update v q (v a)) q ps a q d.1 (ground arith) (ground arith)
      (λ p m. ground arith) (λ p m e. ground arith) s.2

-- The neighbours of an address of a ring are in the ring.
pub Seg-next_mem :
    (n v : Ptr → Ptr) (a : Ptr) (xs : List Ptr) (b q : Ptr)
    → Seg n v a xs b
    → has q xs ≡ true
    → (n q == b || has (n q) xs) ≡ true
Seg-next_mem n v a [] b q s m = cc
Seg-next_mem n v a (p ∷ []) b q s m = ground arith
Seg-next_mem n v a (p ∷ r ∷ xs) b q s m = ground (arith, Seg-next_mem n v p (r ∷ xs) b q s.2)

pub Seg-prev_mem :
    (n v : Ptr → Ptr) (a : Ptr) (xs : List Ptr) (b q : Ptr)
    → Seg n v a xs b
    → has q xs ≡ true
    → (v q == a || has (v q) xs) ≡ true
Seg-prev_mem n v a [] b q s m = cc
Seg-prev_mem n v a (p ∷ xs) b q s m = ground (arith, Seg-prev_mem n v p xs b q s.2)
