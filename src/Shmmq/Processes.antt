-- ===== src/Shmmq/Processes.antt =====
-- shmmq/shmmq.c: several processes in `shmmq_enqueue` and `shmmq_dequeue` at the same time, whose
-- accesses to the segment interleave as the semaphore allows.
use cclab.Base.{ℕ, suc, ◌+◌, ◌≡◌, none, some, List, [], ◌∷◌, ◌++◌, ◌==◌, if◌then◌else◌}
use cclab.Base.Bytes.{copy_in, copy_out}
use cclab.Base.Pointers.{update}
use cclab.Shmmq.Code.{Code}
use cclab.Shmmq.Segment.{Segment, add32, sub32, offset}
use cclab.Shmmq.Trace.{Op, put, get, Reply}

-- Where a process is: outside, behind `semaphore_p`, behind the test for a full or an empty queue, with
-- the place of its slot, behind `memcpy`, and at `queue_full` with its reply. In `read_first` and
-- `counted` it has read a counter, which stands last.
pub data Phase : Type 0 where
  outside : Phase
  entered : Op → Phase
  read_first : Op → ℕ → Phase
  has_room : List ℕ → Phase
  has_item : ℕ → Phase
  found_slot : Op → ℕ → Phase
  copied_in : List ℕ → Phase
  copied_out : ℕ → List ℕ → Phase
  counted : Op → Reply → ℕ → Phase
  finished : Op → Reply → Phase

-- The next access of a process behind `semaphore_p`: it reads or writes one counter, or copies an item.
unfoldable pub access : (m i : ℕ) → Phase → Segment → Phase × Segment
access m i (entered (put x)) s = (read_first (put x) s.deq_pos, s)
access m i (read_first (put x) d) s =
    if sub32 (add32 d m) 1 == s.enq_pos
    then (finished (put x) (Code.msgqueue_full, none), s)
    else (has_room x, s)
access m i (entered (get n)) s = (read_first (get n) s.enq_pos, s)
access m i (read_first (get n) e) s =
    if e == s.deq_pos then (finished (get n) (Code.msgqueue_full, none), s) else (has_item n, s)
access m i (has_room x) s = (found_slot (put x) (offset m i s.enq_pos), s)
access m i (has_item n) s = (found_slot (get n) (offset m i s.deq_pos), s)
access m i (found_slot (put x) at) s = (copied_in x, record s { content = copy_in s.content at x })
access m i (found_slot (get n) at) s = (copied_out n (copy_out s.content at n), s)
access m i (copied_in x) s = (counted (put x) (Code.success, none) s.enq_pos, s)
access m i (copied_out n out) s = (counted (get n) (Code.success, some out) s.deq_pos, s)
access m i (counted (put x) reply e) s = (finished (put x) reply, record s { enq_pos = add32 e 1 })
access m i (counted (get n) reply d) s = (finished (get n) reply, record s { deq_pos = add32 d 1 })
access m i outside s = (outside, s)
access m i (finished op reply) s = (finished op reply, s)

-- The semaphore, the segment, the processes, and the calls that have released the semaphore, in this order.
pub record Processes : Type 0 where
  pub semaphore : ℕ
  pub segment : Segment
  pub phase : ℕ → Phase
  pub calls : List (Op × Reply)

abbrev pub all_outside : Segment → Processes
all_outside s = record { semaphore = 1; segment = s; phase = λ k. outside; calls = [] }

abbrev pub after_access : (m i : ℕ) → ℕ → Processes → Processes
after_access m i k w =
    let (p, s) = access m i (w.phase k) w.segment in
    record w { segment = s; phase = update w.phase k p }

-- `semaphore_p` waits while the semaphore is 0.
pub data Reached (m i : ℕ) (s : Segment) : Processes → Type 0 where
  begin : Reached m i s (all_outside s)
  enter :
      (k left : ℕ) (op : Op) (w : Processes)
      → Reached m i s w
      → w.phase k ≡ outside
      → w.semaphore ≡ suc left
      → Reached m i s (record w { semaphore = left; phase = update w.phase k (entered op) })
  proceed : (k : ℕ) (w : Processes) → Reached m i s w → Reached m i s (after_access m i k w)
  leave :
      (k : ℕ) (op : Op) (reply : Reply) (w : Processes)
      → Reached m i s w
      → w.phase k ≡ finished op reply
      → Reached m i s (record w {
        semaphore = w.semaphore + 1;
        phase = update w.phase k outside;
        calls = w.calls ++ ((op, reply) ∷ []);
      })
