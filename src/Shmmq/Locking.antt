-- ===== src/Shmmq/Locking.antt =====
-- shmmq/shmmq.c: the functions of the queue run their critical section between the two semaphore
-- operations, and there implement the bounded FIFO.
use cclab.Base.{
  ℕ, ◌-◌, ◌^◌, ◌≤◌, ◌<◌, ◌≡◌, inl, inr, false, Option, some, List, ◌++◌, arith, ◌||◌, not,
  if◌then◌else◌, ltb, leb, length, take, length-take, Bool-cases,
}
use cclab.Base.Int.{pos, minus_one}
use cclab.Shmmq.Code.{Code}
use cclab.Shmmq.Queue
use cclab.Shmmq.Segment
use cclab.Shmmq.Segment.{Segment}
use cclab.Shmmq.Slots.{Fits, IsValid, contents, filler}
use cclab.Shmmq.Refine.{push_refines, pop_refines, push-IsValid, pop-IsValid}
use cclab.Shmmq.Semaphore.{
  load-mapped, is_minus_one-status, is_success, failing, semaphore_p, semaphore_v,
}
use cclab.Shmmq.System.{Ipc, Globals}
use cclab.Shmmq.Transfer.{
  shmmq_enqueue, enqueue_locked, shmmq_dequeue, dequeue_locked, shmmq_clear, bad_size,
  critical_index,
}

module _ (ipc : Ipc) where
  open ipc use {World, semop, segment, put_segment}

  -- What the caller sees once the semaphore is released in world `m`.
  abbrev pub after :
      {A : Type 0} → Globals → (Code → A) → Code → World → Option (A × Globals × World)
  after g reply c m =
      let (v, m') = semop g.semid (pos 1) m in some (reply (failing v Code.semaphore_v c), g, m')

  -- The process holds the semaphore in world `m`, and its head is mapped there.
  pub record Locked (g : Globals) (w m : World) (a : ℕ) (s : Segment) : Type 0 where
    pub acquired : semop g.semid minus_one w ≡ (pos 0, m)
    pub head : g.phead ≡ some a
    pub mapped : segment a m ≡ some s

  enqueue_run :
      (buffer : List ℕ) (n : ℕ) (g : Globals) (w m : World) (a : ℕ) (s : Segment)
      → 0 < n
      → n ≤ g.itemsize
      → n ≤ length buffer
      → Locked g w m a s
      → let (c, s') = Segment.push g.mqsize g.itemsize s (take n buffer) in
        shmmq_enqueue ipc (some buffer) (pos n) g w
        ≡ after g (λ r. r) c (if is_success c then put_segment a s' m else m)
  unfolding shmmq_enqueue enqueue_locked semaphore_p semaphore_v
  enqueue_run buffer n g w m a s lo hi long l =
      let e : bad_size g (pos n) ≡ false = ground arith in
      let long' : ltb (length buffer) n ≡ false = ground arith in
      elim (Bool-cases (is_success (Segment.push g.mqsize g.itemsize s (take n buffer)).0)) [
        | inl y ↦
            rw (
              e,
              l.acquired,
              load-mapped ipc a s g m l.head l.mapped,
              y,
              long',
              is_minus_one-status,
            )
        | inr z ↦
            rw (e, l.acquired, load-mapped ipc a s g m l.head l.mapped, z, is_minus_one-status)
      ]

  -- With good arguments, the semaphore granted and the head of a valid segment that fits mapped,
  -- `shmmq_enqueue` acquires the semaphore, does to the segment what the bounded
  -- FIFO does, releases the semaphore, and returns the FIFO's status or that of a failed release.
  -- A full queue writes nothing.
  pub enqueue_refines :
      (buffer : List ℕ) (n : ℕ) (g : Globals) (w m : World) (a : ℕ) (s : Segment)
      → 0 < n
      → n ≤ g.itemsize
      → n ≤ length buffer
      → Locked g w m a s
      → Fits g.mqsize g.itemsize
      → IsValid g.mqsize s
      → let (c, s') = Segment.push g.mqsize g.itemsize s (take n buffer) in
        (shmmq_enqueue ipc (some buffer) (pos n) g w
          ≡ after g (λ r. r) c (if is_success c then put_segment a s' m else m))
        × ((c, contents g.mqsize g.itemsize s')
            ≡ Queue.push
                (g.mqsize - 1)
                (contents g.mqsize g.itemsize s)
                (take n buffer ++ filler g.mqsize g.itemsize s (take n buffer)))
        × IsValid g.mqsize s'
  unfolding shmmq_enqueue enqueue_locked semaphore_p semaphore_v
  enqueue_refines buffer n g w m a s lo hi long l f v = (
    enqueue_run buffer n g w m a s lo hi long l,
    push_refines g.mqsize g.itemsize s (take n buffer) f v (omega (arith, length-take n buffer)),
    push-IsValid g.mqsize g.itemsize s (take n buffer) f v,
  )

  dequeue_run :
      (room n : ℕ) (g : Globals) (w m : World) (a : ℕ) (s : Segment)
      → 0 < n
      → n ≤ g.itemsize
      → n ≤ room
      → Locked g w m a s
      → let (c, out, s') = Segment.pop g.mqsize g.itemsize s n in
        shmmq_dequeue ipc (some room) (pos n) g w
        ≡ after g (λ r. (r, out)) c (if is_success c then put_segment a s' m else m)
  unfolding shmmq_dequeue dequeue_locked semaphore_p semaphore_v
  dequeue_run room n g w m a s lo hi long l =
      let e : bad_size g (pos n) ≡ false = ground arith in
      let long' : ltb room n ≡ false = ground arith in
      elim (Bool-cases (is_success (Segment.pop g.mqsize g.itemsize s n).0)) [
        | inl y ↦
            rw (
              e,
              l.acquired,
              load-mapped ipc a s g m l.head l.mapped,
              y,
              long',
              is_minus_one-status,
            )
        | inr z ↦
            rw (e, l.acquired, load-mapped ipc a s g m l.head l.mapped, z, is_minus_one-status)
      ]

  -- With good arguments, the semaphore granted and the head of a valid segment that fits mapped,
  -- `shmmq_dequeue` acquires the semaphore, does to the segment what the bounded
  -- FIFO does, hands the first bytes of the oldest block to the caller, releases the semaphore, and
  -- returns the FIFO's status or that of a failed release. An empty queue writes nothing.
  pub dequeue_refines :
      (room n : ℕ) (g : Globals) (w m : World) (a : ℕ) (s : Segment)
      → 0 < n
      → n ≤ g.itemsize
      → n ≤ room
      → Locked g w m a s
      → Fits g.mqsize g.itemsize
      → IsValid g.mqsize s
      → let (c, out, s') = Segment.pop g.mqsize g.itemsize s n in
        (shmmq_dequeue ipc (some room) (pos n) g w
          ≡ after g (λ r. (r, out)) c (if is_success c then put_segment a s' m else m))
        × ((c, out, contents g.mqsize g.itemsize s') ≡ Queue.pop (contents g.mqsize g.itemsize s) n)
        × IsValid g.mqsize s'
  dequeue_refines room n g w m a s lo hi long l f v = (
    dequeue_run room n g w m a s lo hi long l,
    pop_refines g.mqsize g.itemsize s n f v hi,
    pop-IsValid g.mqsize g.itemsize s n f v,
  )

  -- With the semaphore granted and the head mapped, `shmmq_clear` checks the index that the caller's function computes from the two positions, and
  -- writes nothing: the world at the release is the one at the acquisition.
  pub shmmq_clear_lem :
      (sf : ℕ → ℕ → ℕ) (g : Globals) (w m : World) (a : ℕ) (s : Segment)
      → Locked g w m a s
      → g.mqsize < 2 ^ 31
      → shmmq_clear ipc (some sf) g w
        ≡ after g
            (λ r. r)
            (if ltb (critical_index g s sf) g.mqsize then Code.success else Code.invalid_argument)
            m
  unfolding shmmq_clear semaphore_p semaphore_v
  shmmq_clear_lem sf g w m a s l small =
      let test : (leb (2 ^ 31) (critical_index g s sf) || leb g.mqsize (critical_index g s sf))
          ≡ not (ltb (critical_index g s sf) g.mqsize) =
        ground arith in
      rw (l.acquired, load-mapped ipc a s g m l.head l.mapped, test, is_minus_one-status)
        (elim (Bool-cases (ltb (critical_index g s sf) g.mqsize)) [ inl y ↦ rw y | inr z ↦ rw z ])
