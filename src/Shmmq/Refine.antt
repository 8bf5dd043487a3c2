-- ===== src/Shmmq/Refine.antt =====
-- The critical sections of `shmmq_enqueue` and `shmmq_dequeue` against the bounded FIFO.
use native.Mathlib.Nat.{mod-mod_of_dvd, mod-add-mod}
use native.Mathlib.Decide.{dec_lt, ℕ_discrete}
use mathlib.Core.Path.{ap₂}
use cclab.Base.{
  ℕ, suc, ◌+◌, ◌-◌, ◌*◌, ◌%◌, ◌≤◌, ◌<◌, ◌≡◌, refl, sym, ◌∙◌, ap, ◌≢◌, List, [], ◌∷◌, ◌++◌, arith,
  length,
}
use cclab.Base.Bytes.{take-copy_out, Bytes, copy_in}
use cclab.Shmmq.Queue
use cclab.Shmmq.Segment.{Segment, word, add32, sub32, offset, push, pop, init_head}
use cclab.Shmmq.Slots.{
  Fits, IsValid, slot, window, contents, length-contents, window-mod, offset_lem, window-copy_in,
  window-snoc, filler, slot-copy_in,
}

-- The counter behind the window names the slot that the code writes.
same_slot :
    (m i : ℕ) (s : Segment)
    → Fits m i
    → IsValid m s
    → (s.enq_pos + 1) % m ≡ (s.deq_pos + 1 + sub32 s.enq_pos s.deq_pos) % m
same_slot m i s f v =
    let n : ℕ = sub32 s.enq_pos s.deq_pos in
    let e : (s.enq_pos + 1) % word ≡ (s.deq_pos + 1 + n) % word = omega arith in
    sym (mod-mod_of_dvd m (s.enq_pos + 1) f.aligned)
    ∙ ap (λ k. k % m) e
    ∙ mod-mod_of_dvd m (s.deq_pos + 1 + n) f.aligned

-- The slots after a successful write: the former ones, and the new one behind them.
contents-write :
    (m i : ℕ) (s : Segment) (item : List ℕ)
    → Fits m i
    → IsValid m s
    → length item ≤ i
    → sub32 s.enq_pos s.deq_pos + 1 < m
    → window m i
        (copy_in s.content (offset m i s.enq_pos) item)
        (s.deq_pos + 1)
        (suc (sub32 s.enq_pos s.deq_pos))
      ≡ contents m i s ++ ((item ++ filler m i s item) ∷ [])
unfolding contents filler
contents-write m i s item f v short room =
    let n : ℕ = sub32 s.enq_pos s.deq_pos in
    let t : ℕ = s.deq_pos + 1 + n in
    let b : Bytes = copy_in s.content (t % m * i) item in
    rw (offset_lem s.enq_pos f, same_slot m i s f v, window-snoc m i b (s.deq_pos + 1) n)
      (ap₂ (λ q x. q ++ (x ∷ []))
        (window-copy_in m i s.content item (s.deq_pos + 1) n t n short refl (omega arith)
          (omega arith))
        (slot-copy_in m i s.content item t short))

contents-after :
    (m i : ℕ) (s : Segment) (item : List ℕ)
    → sub32 (add32 s.enq_pos 1) s.deq_pos ≡ suc (sub32 s.enq_pos s.deq_pos)
    → let s' : Segment = record s {
      enq_pos = add32 s.enq_pos 1;
      content = copy_in s.content (offset m i s.enq_pos) item;
    } in
      contents m i s'
      ≡ window m i
          (copy_in s.content (offset m i s.enq_pos) item)
          (s.deq_pos + 1)
          (suc (sub32 s.enq_pos s.deq_pos))
unfolding contents
contents-after m i s item e =
    ap (window m i (copy_in s.content (offset m i s.enq_pos) item) (s.deq_pos + 1)) e

-- On a valid segment that fits, the critical section of `shmmq_enqueue` returns the status of the bounded FIFO and leaves the
-- segment holding its queue, for an item of at most a slot; the rest of the slot keeps its bytes.
pub push_refines :
    (m i : ℕ) (s : Segment) (item : List ℕ)
    → Fits m i
    → IsValid m s
    → length item ≤ i
    → let (c, s') = push m i s item in
      (c, contents m i s') ≡ Queue.push (m - 1) (contents m i s) (item ++ filler m i s item)
unfolding push Queue.push
push_refines m i s item f v short = elim (dec_lt (sub32 s.enq_pos s.deq_pos + 1) m) [
  | yes room ↦
      let after : sub32 (add32 s.enq_pos 1) s.deq_pos ≡ suc (sub32 s.enq_pos s.deq_pos) =
        omega arith in
      ground (
        arith,
        length-contents m i s,
        contents-write m i s item f v short room,
        contents-after m i s item after,
      )
  | no full ↦ ground (arith, length-contents m i s)
]

-- Where the segment fits and is valid, the critical section of `shmmq_enqueue` keeps both counters
-- words and leaves a slot free.
pub push-IsValid :
    (m i : ℕ) (s : Segment) (item : List ℕ) → Fits m i → IsValid m s → IsValid m (push m i s item).1
unfolding push
push-IsValid m i s item f v = ground arith

-- The critical section of `shmmq_dequeue` keeps both counters words.
pub pop-IsValid :
    (m i : ℕ) (s : Segment) (size : ℕ) → Fits m i → IsValid m s → IsValid m (pop m i s size).2
unfolding pop
pop-IsValid m i s size f v = ground arith

-- The window behind a counter that was taken, when the two counters differ.
contents-taken :
    (m i : ℕ) (s : Segment)
    → Fits m i
    → IsValid m s
    → s.enq_pos ≢ s.deq_pos
    → contents m i s
      ≡ slot m i s.content (s.deq_pos + 1) ∷ contents m i (record s { deq_pos = add32 s.deq_pos 1 })
unfolding contents window
contents-taken m i s f v ne =
    let d : ℕ = s.deq_pos in
    let n : ℕ = sub32 s.enq_pos (add32 d 1) in
    let e : sub32 s.enq_pos d ≡ suc n = omega arith in
    rw e (
      ap (λ l. slot m i s.content (d + 1) ∷ l)
        (window-mod m i s.content (d + 1 + 1) (add32 d 1 + 1) n (
          sym (mod-add-mod (d + 1) m 1)
          ∙ ap (λ t. (t + 1) % m) (sym (mod-mod_of_dvd m (d + 1) f.aligned))
          ∙ mod-add-mod (add32 d 1) m 1)))

contents-none : (m i : ℕ) (s : Segment) → s.enq_pos ≡ s.deq_pos → contents m i s ≡ []
unfolding contents window
contents-none m i s h = let e : sub32 s.enq_pos s.deq_pos ≡ 0 = omega arith in rw e

-- On a valid segment that fits, the critical section of `shmmq_dequeue` returns the status and the bytes of the bounded FIFO and
-- leaves the segment holding the rest, for a request of at most a slot.
pub pop_refines :
    (m i : ℕ) (s : Segment) (size : ℕ)
    → Fits m i
    → IsValid m s
    → size ≤ i
    → let (c, out, s') = pop m i s size in
      (c, out, contents m i s') ≡ Queue.pop (contents m i s) size
unfolding pop Queue.pop
pop_refines m i s size f v short = elim (ℕ_discrete s.enq_pos s.deq_pos) [
  | yes same ↦ ground (arith, contents-none m i s same)
  | no ne ↦ ground (
    arith,
    contents-taken m i s f v ne,
    offset_lem s.deq_pos f,
    take-copy_out s.content ((s.deq_pos + 1) % m * i) i size short,
  )
]

-- A queue that `shmmq_open` has just created is valid and empty.
pub init_head_lem :
    (m i : ℕ) (s : Segment) → 0 < m → IsValid m (init_head s) × (contents m i (init_head s) ≡ [])
unfolding init_head contents window
init_head_lem m i s h = (omega arith, refl)
