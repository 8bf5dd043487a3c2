-- ===== src/Shmmq/Overflow.antt =====
-- shmmq/shmmq.c: what the wrap of the 32-bit counters does to a queue whose number of slots does not
-- divide 2^32.
use native.Mathlib.Nat.{div-add-mod, mul-mod_right, zero-mod}
use cclab.Base.{
  ℕ, false, ◌==◌, sym, ◌+◌, ◌-◌, ◌*◌, ◌/◌, ◌%◌, ◌^◌, ◌<◌, ◌≡◌, refl, ◌∙◌, ap, some, List, arith,
  length,
}
use cclab.Base.Bytes.{copy_in, copy_out, copy_out-copy_in}
use cclab.Shmmq.Code.{Code}
use cclab.Shmmq.Segment.{Segment, word, add32, sub32, offset, push, pop}

offset_last : (m i : ℕ) → offset m i (word - 1) ≡ 0
offset_last m i = rw zero-mod (omega arith)

offset_wrapped :
    (m i : ℕ) → m < 2 ^ 31 → word % m < m → 0 < word % m → offset m i (word - 1 - word % m) ≡ 0
offset_wrapped m i an_int lt lo =
    let r : ℕ = word % m in
    let q : ℕ = word / m in
    let e : add32 (word - 1 - r) 1 ≡ m * q = omega (arith, div-add-mod word m, lt) in
    rw (e, mul-mod_right m q) (omega arith)

-- With `r = 2^32 % mqsize` not 0 and below `mqsize - 1`, a queue that holds `r` items when its write
-- counter reaches 2^32 - 1 accepts one more item of a whole slot, and writes it over its oldest item:
-- the next reader is given the newest item in place of the oldest.
pub wrap_overwrites :
    (m i : ℕ) (s : Segment) (item : List ℕ)
    → m < 2 ^ 31
    → 0 < word % m
    → word % m + 1 < m
    → length item ≡ i
    → s.enq_pos ≡ word - 1
    → s.deq_pos ≡ word - 1 - word % m
    → let (c, s') = push m i s item in
      let (c', out, _) = pop m i s' i in
      (c ≡ Code.success) × (c' ≡ Code.success) × (out ≡ some item)
unfolding push pop
wrap_overwrites m i s item an_int lo hi len e d =
    let accepted : (sub32 (add32 s.deq_pos m) 1 == s.enq_pos) ≡ false = ground arith in
    let back : copy_out (copy_in s.content 0 item) 0 i ≡ item =
      ap (copy_out (copy_in s.content 0 item) 0) (sym len) ∙ copy_out-copy_in s.content 0 item in
    let last : offset m i s.enq_pos ≡ 0 = ap (offset m i) e ∙ offset_last m i in
    let oldest : offset m i s.deq_pos ≡ 0 =
      ap (offset m i) d ∙ offset_wrapped m i an_int (omega arith) lo in
    let more : (add32 s.enq_pos 1 == s.deq_pos) ≡ false = ground arith in
    rw (accepted, last)
      (rw more
        (refl, refl, ap some (ap (λ o. copy_out (copy_in s.content 0 item) o i) oldest ∙ back)))
