-- ===== src/Shmmq/Trace.antt =====
-- shmmq/shmmq.c: sequences of critical sections, by any processes, in the order in which the
-- semaphore lets them in.
use cclab.Base.{
  ℕ, ◌-◌, ◌≤◌, ◌≡◌, refl, ◌∙◌, ap, Option, none, List, [], ◌∷◌, ◌++◌, arith, length, append-nil,
}
use cclab.Base.Bytes.{copy_out}
use cclab.Shmmq.Code.{Code}
use cclab.Shmmq.Queue
use cclab.Shmmq.Queue.{Queue}
use cclab.Shmmq.Segment
use cclab.Shmmq.Segment.{Segment}
use cclab.Shmmq.Slots.{Fits, IsValid, contents, filler}
use cclab.Shmmq.Refine.{push_refines, pop_refines, push-IsValid, pop-IsValid}

-- What a process asks for: an item of a whole slot, or the first bytes of the oldest one.
pub data Op : Type 0 where
  put : List ℕ → Op
  get : ℕ → Op

abbrev pub Reply : Type 0
Reply = Code × Option (List ℕ)

unfoldable pub run : (m i : ℕ) → Segment → List Op → List Reply
run m i s [] = []
run m i s (put x ∷ ops) = let (c, s') = Segment.push m i s x in (c, none) ∷ run m i s' ops
run m i s (get n ∷ ops) = let (c, out, s') = Segment.pop m i s n in (c, out) ∷ run m i s' ops

unfoldable pub run_queue : ℕ → Queue → List Op → List Reply
run_queue cap q [] = []
run_queue cap q (put x ∷ ops) = let (c, q') = Queue.push cap q x in (c, none) ∷ run_queue cap q' ops
run_queue cap q (get n ∷ ops) = let (c, out, q') = Queue.pop q n in (c, out) ∷ run_queue cap q' ops

-- Items fill a slot, and requests are no longer than one.
abbrev pub Sized : ℕ → List Op → Type 0
Sized i [] = Unit
Sized i (put x ∷ ops) = (length x ≡ i) × Sized i ops
Sized i (get n ∷ ops) = (n ≤ i) × Sized i ops

filler-full : (m i : ℕ) (s : Segment) (x : List ℕ) → length x ≡ i → x ++ filler m i s x ≡ x
unfolding filler copy_out
filler-full m i s x e = let z : i - length x ≡ 0 = omega arith in rw (z, append-nil)

push_whole :
    (m i : ℕ) (s : Segment) (x : List ℕ)
    → Fits m i
    → IsValid m s
    → length x ≡ i
    → let (c, s') = Segment.push m i s x in
      (c, contents m i s') ≡ Queue.push (m - 1) (contents m i s) x
push_whole m i s x f v e =
    push_refines m i s x f v (omega arith)
    ∙ ap (Queue.push (m - 1) (contents m i s)) (filler-full m i s x e)

-- No sequence of enqueueing and dequeueing tells a valid segment that fits (mqsize divides 2^32) from a
-- FIFO of `mqsize - 1` items, where the items fill a slot and requests are no longer than one.
pub run_refines :
    (m i : ℕ) (s : Segment) (ops : List Op)
    → Fits m i
    → IsValid m s
    → Sized i ops
    → run m i s ops ≡ run_queue (m - 1) (contents m i s) ops
unfolding run run_queue
run_refines m i s [] f v z = refl
run_refines m i s (put x ∷ ops) f v z = rw (
  run_refines m i (Segment.push m i s x).1 ops f (push-IsValid m i s x f v) z.1,
  ← push_whole m i s x f v z.0,
)
run_refines m i s (get n ∷ ops) f v z = rw (
  run_refines m i (Segment.pop m i s n).2 ops f (pop-IsValid m i s n f v) z.1,
  ← pop_refines m i s n f v z.0,
)
