-- ===== src/Shmmq/Transfer.antt =====
-- shmmq/shmmq.c: `shmmq_enqueue`, `shmmq_dequeue`, `shmmq_clear` and the accessors of the counters.
use cclab.Base.{
  ℕ, ◌%◌, ◌^◌, Bool, ◌||◌, Option, none, some, List, ltb, leb, if◌then◌else◌, length, take,
}
use cclab.Base.Int.{ℤ, is_minus_one, is_nonpos, to_ℕ}
use cclab.Shmmq.Code.{Code}
use cclab.Shmmq.Segment
use cclab.Shmmq.Segment.{Segment}
use cclab.Shmmq.Semaphore.{is_success, failing, semaphore_p, semaphore_v}
use cclab.Shmmq.Semaphore
use cclab.Shmmq.System.{Ipc, Globals, Cmd, pure, undefined, ◌>>=◌, ◌>>◌, globals}

-- `!item` aside, the test of the arguments: `size <= 0 || size > g_s_itemsize`
abbrev pub bad_size : Globals → ℤ → Bool
bad_size g size = is_nonpos size || ltb g.itemsize (to_ℕ size)

-- The index that the caller's function gives, an `unsigned int` that `begin` holds as an `int`.
abbrev pub critical_index : Globals → Segment → (ℕ → ℕ → ℕ) → ℕ
critical_index g s sf = sf (s.deq_pos % g.mqsize) (s.enq_pos % g.mqsize) % 2 ^ 32

module _ (ipc : Ipc) where
  open ipc use {World}

  -- `queue_full:` and what follows it.
  abbrev pub unlock : Code → Cmd World Code
  unlock ret = do
    g ← globals
    r ← Semaphore.semaphore_v ipc g.semid
    pure (failing r Code.semaphore_v ret)

  -- Between the semaphore operations of `shmmq_enqueue`; the value is `ret`.
  abbrev pub put_item : List ℕ → ℕ → Cmd World Code
  put_item buffer n = do
    g ← globals
    (a, s) ← Semaphore.load ipc
    let (c, s') = Segment.push g.mqsize g.itemsize s (take n buffer)
    if is_success c
        then (if ltb (length buffer) n then undefined else (do Semaphore.store ipc a s'; pure c))
        else pure c

  unfoldable pub enqueue_locked : List ℕ → ℕ → Cmd World Code
  enqueue_locked buffer n = do
    g ← globals
    r ← Semaphore.semaphore_p ipc g.semid
    if is_minus_one r then pure Code.semaphore_p else (do c ← put_item buffer n; unlock c)

  -- `item` is NULL, or points to a buffer of these bytes.
  unfoldable pub shmmq_enqueue : Option (List ℕ) → ℤ → Cmd World Code
  shmmq_enqueue none size = pure Code.invalid_argument
  shmmq_enqueue (some buffer) size = do
    g ← globals
    if bad_size g size then pure Code.invalid_argument else enqueue_locked buffer (to_ℕ size)

  -- Between the semaphore operations of `shmmq_dequeue`: `ret`, and what is written to `item`.
  abbrev pub take_item : ℕ → ℕ → Cmd World (Code × Option (List ℕ))
  take_item room n = do
    g ← globals
    (a, s) ← Semaphore.load ipc
    let (c, out, s') = Segment.pop g.mqsize g.itemsize s n
    if is_success c
        then (if ltb room n then undefined else (do Semaphore.store ipc a s'; pure (c, out)))
        else pure (c, out)

  unfoldable pub dequeue_locked : ℕ → ℕ → Cmd World (Code × Option (List ℕ))
  dequeue_locked room n = do
    g ← globals
    r ← Semaphore.semaphore_p ipc g.semid
    if is_minus_one r
        then pure (Code.semaphore_p, none)
        else (do (c, out) ← take_item room n; ret ← unlock c; pure (ret, out))

  -- `item` is NULL, or points to a buffer of `room` bytes.
  unfoldable pub shmmq_dequeue : Option ℕ → ℤ → Cmd World (Code × Option (List ℕ))
  shmmq_dequeue none size = pure (Code.invalid_argument, none)
  shmmq_dequeue (some room) size = do
    g ← globals
    if bad_size g size then pure (Code.invalid_argument, none) else dequeue_locked room (to_ℕ size)

  abbrev pub check_index : (ℕ → ℕ → ℕ) → Cmd World Code
  check_index sf = do
    g ← globals
    (a, s) ← Semaphore.load ipc
    let begin = critical_index g s sf
    pure (if leb (2 ^ 31) begin || leb g.mqsize begin then Code.invalid_argument else Code.success)

  unfoldable pub shmmq_clear : Option (ℕ → ℕ → ℕ) → Cmd World Code
  shmmq_clear none = pure Code.invalid_argument
  shmmq_clear (some sf) = do
    g ← globals
    r ← Semaphore.semaphore_p ipc g.semid
    if is_minus_one r then pure Code.semaphore_p else (do c ← check_index sf; unlock c)

  unfoldable pub shmmq_get_enq_pos : Cmd World ℕ
  shmmq_get_enq_pos = do (a, s) ← Semaphore.load ipc; pure s.enq_pos

  unfoldable pub shmmq_get_deq_pos : Cmd World ℕ
  shmmq_get_deq_pos = do (a, s) ← Semaphore.load ipc; pure s.deq_pos

  unfoldable pub shmmq_set_enq_pos : ℕ → Cmd World (Unit {0})
  shmmq_set_enq_pos p = do
    (a, s) ← Semaphore.load ipc
    Semaphore.store ipc a (record s { enq_pos = p })

  unfoldable pub shmmq_set_deq_pos : ℕ → Cmd World (Unit {0})
  shmmq_set_deq_pos p = do
    (a, s) ← Semaphore.load ipc
    Semaphore.store ipc a (record s { deq_pos = p })
