-- ===== src/Shmmq/Slots.antt =====
-- shmmq/shmmq.c: the slots that the two counters of the head name, and what a write of one slot
-- leaves of the others.
use native.Mathlib.Nat.{mod-mod_of_dvd, mod-add-mod, mod-eq_of_lt, mod-eq-sub-mod, mod-lt}
use native.Mathlib.Decide.{dec_lt}
use mathlib.Core.Path.{ap₂}
use Prim.Native.Nat.{◌∣◌}
use cclab.Base.{
  ℕ, zero, suc, ◌+◌, ◌-◌, ◌*◌, ◌%◌, ◌^◌, ◌≤◌, ◌<◌, ◌≡◌, refl, sym, ◌∙◌, ap, ◌≢◌, ◌⊎◌, List, [], ◌∷◌,
  ◌++◌, arith, length,
}
use cclab.Base.Bytes.{
  Bytes, copy_in, copy_out, copy_out-add, copy_out-copy_in, copy_out-copy_in_apart,
}
use cclab.Shmmq.Queue.{Queue}
use cclab.Shmmq.Segment.{Segment, word, sub32, offset}

-- Sizes for which no product of the code wraps, and for which the counters keep their slot when
-- they wrap: the number of slots divides 2^32.
pub record Fits (m i : ℕ) : Type 0 where
  pub some_slot : 0 < m
  pub an_int : m < 2 ^ 31
  pub aligned : m ∣ word
  pub small : m * i < 2 ^ 31

-- Both counters are words, and at most `m - 1` slots are taken.
pub record IsValid (m : ℕ) (s : Segment) : Type 0 where
  pub enq_word : s.enq_pos < word
  pub deq_word : s.deq_pos < word
  pub room : sub32 s.enq_pos s.deq_pos < m

-- The slot that counter `k` names, `i` bytes.
abbrev pub slot : (m i : ℕ) → Bytes → ℕ → List ℕ
slot m i b k = copy_out b (k % m * i) i

-- `n` slots from counter `k` on.
unfoldable pub window : (m i : ℕ) → Bytes → ℕ → ℕ → Queue
window m i b k zero = []
window m i b k (suc n) = slot m i b k ∷ window m i b (k + 1) n

-- The blocks between the two counters, oldest first.
unfoldable pub contents : (m i : ℕ) → Segment → Queue
contents m i s = window m i s.content (s.deq_pos + 1) (sub32 s.enq_pos s.deq_pos)

length-window : (m i : ℕ) (b : Bytes) (k n : ℕ) → length (window m i b k n) ≡ n
unfolding window
length-window m i b k zero = refl
length-window m i b k (suc n) = ap suc (length-window m i b (k + 1) n)

pub length-contents : (m i : ℕ) (s : Segment) → length (contents m i s) ≡ sub32 s.enq_pos s.deq_pos
unfolding contents
length-contents m i s = length-window m i s.content (s.deq_pos + 1) (sub32 s.enq_pos s.deq_pos)

-- A window depends on its first counter only modulo the number of slots.
pub window-mod :
    (m i : ℕ) (b : Bytes) (k j n : ℕ) → k % m ≡ j % m → window m i b k n ≡ window m i b j n
unfolding window
window-mod m i b k j zero e = refl
window-mod m i b k j (suc n) e = rw (
  e,
  window-mod m i b (k + 1) (j + 1) n
      (sym (mod-add-mod k m 1) ∙ ap (λ t. (t + 1) % m) e ∙ mod-add-mod j m 1),
)

-- Different slots share no byte.
slots_apart : (p q i : ℕ) → p < q → p * i + i ≤ q * i
slots_apart p q i h = grind arith

slots_apart_ne : (p q i : ℕ) → p ≢ q → (p * i + i ≤ q * i) ⊎ (q * i + i ≤ p * i)
slots_apart_ne p q i h = grind (arith, slots_apart)

slot_in : (m i k : ℕ) → 0 < m → k % m * i + i ≤ m * i
slot_in m i k h = slots_apart (k % m) m i (omega arith)

-- Fewer than `m` steps do not come back to the same slot.
mod-ne : (m k d : ℕ) → 0 < d → d < m → k % m ≢ (k + d) % m
mod-ne m k d lo hi e =
    let r : ℕ = k % m in
    let small : r < m = mod-lt k (omega arith) in
    let same : r ≡ (r + d) % m = e ∙ sym (mod-add-mod k m d) in
    elim (dec_lt (r + d) m) [
      | yes p ↦ omega (arith, mod-eq_of_lt p)
      | no p ↦ omega (
        arith,
        mod-eq-sub-mod {n = r + d} {m = m} (omega arith),
        mod-eq_of_lt {n = r + d - m} {m = m} (omega arith),
      )
    ]

-- The products of the code do not wrap, and counters that wrap keep their slot.
pub offset_lem : {m i : ℕ} (k : ℕ) → Fits m i → offset m i k ≡ (k + 1) % m * i
offset_lem {m} {i} k f = rw (mod-mod_of_dvd m (k + 1) f.aligned) (
    mod-eq_of_lt {n = (k + 1) % m * i} {m = word}
      (omega (arith, slot_in m i (k + 1) f.some_slot, f.small)))

pub window-copy_in :
    (m i : ℕ) (b : Bytes) (xs : List ℕ) (k n t d : ℕ)
    → length xs ≤ i
    → t ≡ k + d
    → n ≤ d
    → d < m
    → window m i (copy_in b (t % m * i) xs) k n ≡ window m i b k n
unfolding window
window-copy_in m i b xs k zero t d short e lo hi = refl
window-copy_in m i b xs k (suc n) t d short e lo hi =
    ap₂ ◌∷◌ (copy_out-copy_in_apart b (t % m * i) xs (k % m * i) i apart)
      (window-copy_in m i b xs (k + 1) n t (d - 1) short (omega arith) (omega arith) (omega arith))
  where
    ne : k % m ≢ t % m
    ne = rw e (mod-ne m k d (omega arith) hi)

    apart : (k % m * i + i ≤ t % m * i) ⊎ (t % m * i + length xs ≤ k % m * i)
    apart = omega (arith, slots_apart_ne (k % m) (t % m) i ne)

pub window-snoc :
    (m i : ℕ) (b : Bytes) (k n : ℕ)
    → window m i b k (suc n) ≡ window m i b k n ++ (slot m i b (k + n) ∷ [])
unfolding window
window-snoc m i b k zero = let e : k + zero ≡ k = omega arith in rw e
window-snoc m i b k (suc n) =
    let e : k + 1 + n ≡ k + suc n = omega arith in
    ap (λ l. slot m i b k ∷ l)
      (window-snoc m i b (k + 1) n ∙ ap (λ t. window m i b (k + 1) n ++ (slot m i b t ∷ [])) e)

-- What a write leaves of the former bytes of a slot.
unfoldable pub filler : (m i : ℕ) → Segment → List ℕ → List ℕ
filler m i s item = copy_out s.content ((s.enq_pos + 1) % m * i + length item) (i - length item)

pub slot-copy_in :
    (m i : ℕ) (b : Bytes) (xs : List ℕ) (t : ℕ)
    → length xs ≤ i
    → slot m i (copy_in b (t % m * i) xs) t
      ≡ xs ++ copy_out b (t % m * i + length xs) (i - length xs)
slot-copy_in m i b xs t short =
    let base : ℕ = t % m * i in
    let e : i ≡ length xs + (i - length xs) = omega arith in
    ap (copy_out (copy_in b base xs) base) e
    ∙ copy_out-add (copy_in b base xs) base (length xs) (i - length xs)
    ∙ ap₂ ◌++◌ (copy_out-copy_in b base xs)
        (copy_out-copy_in_apart b base xs (base + length xs) (i - length xs) (omega arith))
