-- ===== src/Shmmq/Sections.antt =====
-- shmmq/shmmq.c: the critical sections of `shmmq_enqueue` and `shmmq_dequeue`, as a whole and access by access.
use cclab.Base.{
  ℕ, ◌≡◌, refl, sym, ◌∙◌, ap, inl, inr, Bool, false, none, some, List, [], ◌∷◌, ◌++◌, map, ◌==◌,
  Bool-cases,
}
use mathlib.Core.Path.{ap₂, subst}
use cclab.Base.Bytes.{copy_in, copy_out}
use cclab.Shmmq.Code.{Code}
use cclab.Shmmq.Segment
use cclab.Shmmq.Segment.{Segment, add32, sub32, offset}
use cclab.Shmmq.Trace.{Op, put, get, Reply, run}
use cclab.Shmmq.Processes.{
  Phase, outside, entered, read_first, has_room, has_item, found_slot, copied_in, copied_out,
  counted, finished, access,
}

-- A whole critical section
abbrev pub section : (m i : ℕ) → Op → Segment → Reply × Segment
section m i (put x) s = let (c, s') = Segment.push m i s x in ((c, none), s')
section m i (get n) s = let (c, out, s') = Segment.pop m i s n in ((c, out), s')

abbrev pub after_all : (m i : ℕ) → Segment → List Op → Segment
after_all m i s [] = s
after_all m i s (op ∷ ops) = after_all m i (section m i op s).1 ops

abbrev pub ops_of : List (Op × Reply) → List Op
ops_of = map (λ c. c.0)

abbrev pub replies_of : List (Op × Reply) → List Reply
replies_of = map (λ c. c.1)

run-section :
    (m i : ℕ) (s : Segment) (op : Op) (ops : List Op)
    → run m i s (op ∷ ops) ≡ (section m i op s).0 ∷ run m i (section m i op s).1 ops
unfolding run
run-section m i s (put x) ops = refl
run-section m i s (get n) ops = refl

pub run-last :
    (m i : ℕ) (s : Segment) (ops : List Op) (op : Op)
    → run m i s (ops ++ (op ∷ []))
      ≡ run m i s ops ++ ((section m i op (after_all m i s ops)).0 ∷ [])
unfolding run
run-last m i s [] op = run-section m i s op []
run-last m i s (o ∷ ops) op =
    run-section m i s o (ops ++ (op ∷ []))
    ∙ ap (λ l. (section m i o s).0 ∷ l) (run-last m i (section m i o s).1 ops op)
    ∙ ap (λ l. l ++ ((section m i op (after_all m i s (o ∷ ops))).0 ∷ []))
        (sym (run-section m i s o ops))

pub after_all-last :
    (m i : ℕ) (s : Segment) (ops : List Op) (op : Op)
    → after_all m i s (ops ++ (op ∷ [])) ≡ (section m i op (after_all m i s ops)).1
after_all-last m i s [] op = refl
after_all-last m i s (o ∷ ops) op = after_all-last m i (section m i o s).1 ops op

-- What the test of an operation finds: whether the queue is full, or empty.
abbrev is_refused : (m : ℕ) → Op → Segment → Bool
is_refused m (put x) s = sub32 (add32 s.deq_pos m) 1 == s.enq_pos
is_refused m (get n) s = s.enq_pos == s.deq_pos

-- The counter that an operation reads first, and the one that it increases.
abbrev first_counter : Op → Segment → ℕ
first_counter (put x) s = s.deq_pos
first_counter (get n) s = s.enq_pos

abbrev own_counter : Op → Segment → ℕ
own_counter (put x) s = s.enq_pos
own_counter (get n) s = s.deq_pos

abbrev item_in : (m i : ℕ) → List ℕ → Segment → Segment
item_in m i x s = record s { content = copy_in s.content (offset m i s.enq_pos) x }

-- The reply of an operation that has copied its item, and the segment then.
abbrev copied : (m i : ℕ) → Op → Segment → Reply × Segment
copied m i (put x) s = ((Code.success, none), item_in m i x s)
copied m i (get n) s = ((Code.success, some (copy_out s.content (offset m i s.deq_pos) n)), s)

-- How far a process is from the segment `s` that it found.
unfoldable pub AtPhase : (m i : ℕ) → Segment → Phase → Segment → Type 0
AtPhase m i s outside t = ⊥
AtPhase m i s (entered op) t = t ≡ s
AtPhase m i s (read_first op c) t = (t ≡ s) × (c ≡ first_counter op s)
AtPhase m i s (has_room x) t = (is_refused m (put x) s ≡ false) × (t ≡ s)
AtPhase m i s (has_item n) t = (is_refused m (get n) s ≡ false) × (t ≡ s)
AtPhase m i s (found_slot op at) t =
    (is_refused m op s ≡ false) × (t ≡ s) × (at ≡ offset m i (own_counter op s))
AtPhase m i s (copied_in x) t = (is_refused m (put x) s ≡ false) × (t ≡ item_in m i x s)
AtPhase m i s (copied_out n out) t =
    (is_refused m (get n) s ≡ false) × (t ≡ s) × (out ≡ copy_out s.content (offset m i s.deq_pos) n)
AtPhase m i s (counted op reply c) t =
    (is_refused m op s ≡ false) × (copied m i op s ≡ (reply, t)) × (c ≡ own_counter op s)
AtPhase m i s (finished op reply) t = section m i op s ≡ (reply, t)

-- The test, with the counter that was read first.
tested :
    (m i : ℕ) (s : Segment) (op : Op)
    → let (p', t') = access m i (read_first op (first_counter op s)) s in AtPhase m i s p' t'
unfolding AtPhase access Segment.push Segment.pop
tested m i s (put x) = elim (Bool-cases (is_refused m (put x) s)) [
  | inl y ↦ rw y (rw y refl)
  | inr z ↦ rw z (z, refl)
]
tested m i s (get n) = elim (Bool-cases (is_refused m (get n) s)) [
  | inl y ↦ rw y (rw y refl)
  | inr z ↦ rw z (z, refl)
]

pub access-AtPhase :
    (m i : ℕ) (s : Segment) (p : Phase) (t : Segment)
    → AtPhase m i s p t
    → let (p', t') = access m i p t in AtPhase m i s p' t'
unfolding AtPhase access Segment.push Segment.pop
access-AtPhase m i s outside t a = a
access-AtPhase m i s (entered (put x)) t a = (a, ap {A = Segment} (λ u. u.deq_pos) a)
access-AtPhase m i s (entered (get n)) t a = (a, ap {A = Segment} (λ u. u.enq_pos) a)
access-AtPhase m i s (read_first op c) t (a, b) =
    subst (λ u. let (p', t') = access m i (read_first op c) u in AtPhase m i s p' t') (sym a)
      (subst (λ d. let (p', t') = access m i (read_first op d) s in AtPhase m i s p' t') (sym b)
        (tested m i s op))
access-AtPhase m i s (has_room x) t (z, a) = (z, a, ap {A = Segment} (λ u. offset m i u.enq_pos) a)
access-AtPhase m i s (has_item n) t (z, a) = (z, a, ap {A = Segment} (λ u. offset m i u.deq_pos) a)
access-AtPhase m i s (found_slot (put x) at) t (z, a, b) =
    (z, ap₂ {A = Segment} (λ u k. record u { content = copy_in u.content k x }) a b)
access-AtPhase m i s (found_slot (get n) at) t (z, a, b) =
    (z, a, ap₂ {A = Segment} (λ u k. copy_out u.content k n) a b)
access-AtPhase m i s (copied_in x) t (z, a) =
    (z, ap (λ u. ((Code.success, none), u)) (sym a), ap {A = Segment} (λ u. u.enq_pos) a)
access-AtPhase m i s (copied_out n out) t (z, a, b) = (
  z,
  ap₂ (λ u o. ((Code.success, some o), u)) (sym a) (sym b),
  ap {A = Segment} (λ u. u.deq_pos) a,
)
access-AtPhase m i s (counted (put x) reply c) t (z, a, b) =
    rw z (ap₂ {A = Reply × Segment} (λ u k. (u.0, record u.1 { enq_pos = add32 k 1 })) a (sym b))
access-AtPhase m i s (counted (get n) reply c) t (z, a, b) =
    rw z (ap₂ {A = Reply × Segment} (λ u k. (u.0, record u.1 { deq_pos = add32 k 1 })) a (sym b))
access-AtPhase m i s (finished op reply) t a = a
