-- ===== src/Base/Bytes.antt =====
-- The bytes of a piece of memory, and what `memcpy` does to them.
use cclab.Base.{
  ℕ, zero, suc, ◌+◌, ◌-◌, ◌≤◌, ◌<◌, ◌≡◌, refl, ◌∙◌, ap, ◌⊎◌, ◌&&◌, List, [], ◌∷◌, ◌++◌, arith, ltb,
  leb, if◌then◌else◌, length, get_or, take, drop,
}
use mathlib.Core.Path.{ap₂}

-- A byte for each offset.
abbrev pub Bytes : Type 0
Bytes = ℕ → ℕ

-- `memcpy(content + base, xs, length xs)`
unfoldable pub copy_in : Bytes → ℕ → List ℕ → Bytes
copy_in m base xs a = if leb base a && ltb a (base + length xs) then get_or xs (a - base) 0 else m a

-- The `n` bytes that `memcpy(item, content + base, n)` hands over.
unfoldable pub copy_out : Bytes → ℕ → ℕ → List ℕ
copy_out m base zero = []
copy_out m base (suc n) = m base ∷ copy_out m (suc base) n

pub length-copy_out : (m : Bytes) (base n : ℕ) → length (copy_out m base n) ≡ n
unfolding copy_out
length-copy_out m base zero = refl
length-copy_out m base (suc n) = ap suc (length-copy_out m (suc base) n)

pub copy_out-ext :
    (m g : Bytes) (base n : ℕ)
    → ((a : ℕ) → base ≤ a → a < base + n → m a ≡ g a)
    → copy_out m base n ≡ copy_out g base n
unfolding copy_out
copy_out-ext m g base zero h = refl
copy_out-ext m g base (suc n) h =
    ap₂ ◌∷◌ (h base (omega arith) (omega arith))
      (copy_out-ext m g (suc base) n λ a lo hi. h a (omega arith) (omega arith))

pub copy_out-add :
    (m : Bytes) (base n k : ℕ)
    → copy_out m base (n + k) ≡ copy_out m base n ++ copy_out m (base + n) k
unfolding copy_out
copy_out-add m base zero k =
    let e : zero + k ≡ k = omega arith in let f : base + zero ≡ base = omega arith in rw (e, f)
copy_out-add m base (suc n) k =
    let e : suc n + k ≡ suc (n + k) = omega arith in
    let f : base + suc n ≡ suc base + n = omega arith in rw (e, f, copy_out-add m (suc base) n k)

-- A block is read back from a memory that agrees with it.
copy_out-list :
    (m : Bytes) (base : ℕ) (xs : List ℕ)
    → ((j : ℕ) → j < length xs → m (base + j) ≡ get_or xs j 0)
    → copy_out m base (length xs) ≡ xs
unfolding copy_out
copy_out-list m base [] h = refl
copy_out-list m base (x ∷ xs) h =
    ap₂ ◌∷◌ (ap m (omega arith) ∙ h 0 (omega arith))
      (copy_out-list m (suc base) xs λ j lt. ap m (omega arith) ∙ h (suc j) (omega arith))

copy_in-inside :
    (m : Bytes) (base : ℕ) (xs : List ℕ) (j : ℕ)
    → j < length xs
    → copy_in m base xs (base + j) ≡ get_or xs j 0
unfolding copy_in
copy_in-inside m base xs j lt = let e : base + j - base ≡ j = omega arith in rw e (ground arith)

pub copy_in-outside :
    (m : Bytes) (base : ℕ) (xs : List ℕ) (a : ℕ)
    → (a < base) ⊎ (base + length xs ≤ a)
    → copy_in m base xs a ≡ m a
unfolding copy_in
copy_in-outside m base xs a h = ground arith

pub copy_out-copy_in :
    (m : Bytes) (base : ℕ) (xs : List ℕ) → copy_out (copy_in m base xs) base (length xs) ≡ xs
copy_out-copy_in m base xs =
    copy_out-list (copy_in m base xs) base xs λ j lt. copy_in-inside m base xs j lt

pub copy_out-copy_in_apart :
    (m : Bytes) (base : ℕ) (xs : List ℕ) (b n : ℕ)
    → (b + n ≤ base) ⊎ (base + length xs ≤ b)
    → copy_out (copy_in m base xs) b n ≡ copy_out m b n
copy_out-copy_in_apart m base xs b n h =
    copy_out-ext (copy_in m base xs) m b n λ a lo hi. copy_in-outside m base xs a (omega arith)

-- A part of what is read.
pub drop-copy_out :
    (m : Bytes) (base n k : ℕ) → k ≤ n → drop k (copy_out m base n) ≡ copy_out m (base + k) (n - k)
unfolding copy_out
drop-copy_out m base n zero h =
    let e : base + zero ≡ base = omega arith in let f : n - zero ≡ n = omega arith in rw (e, f)
drop-copy_out m base zero (suc k) h = absurd (omega arith)
drop-copy_out m base (suc n) (suc k) h =
    let e : suc base + k ≡ base + suc k = omega arith in
    let f : suc n - suc k ≡ n - k = omega arith in
    rw (← e, f) (drop-copy_out m (suc base) n k (omega arith))

pub take-copy_out :
    (m : Bytes) (base n k : ℕ) → k ≤ n → take k (copy_out m base n) ≡ copy_out m base k
unfolding copy_out
take-copy_out m base n zero h = refl
take-copy_out m base zero (suc k) h = absurd (omega arith)
take-copy_out m base (suc n) (suc k) h =
    ap (λ l. m base ∷ l) (take-copy_out m (suc base) n k (omega arith))
