-- ===== src/Shmmq/Lifecycle.antt =====
-- shmmq/shmmq.c: `shmmq_open` and `shmmq_close`.
use cclab.Base.{ℕ, ◌+◌, ◌*◌, ◌^◌, Bool, ◌&&◌, not, Option, none, some, ltb, if◌then◌else◌}
use cclab.Base.Int.{ℤ, pos, minus_one, is_minus_one, is_neg, is_nonpos, to_ℕ}
use cclab.Shmmq.Code.{Code}
use cclab.Shmmq.Segment.{init_head}
use cclab.Shmmq.Semaphore.{
  default_mq_size, default_item_size, default_head_size, sem_key, shm_key, is_success, failing,
  get_semvalue, set_semvalue, del_semvalue, semaphore_p, semaphore_v,
}
use cclab.Shmmq.Semaphore
use cclab.Shmmq.System.{Ipc, Globals, Cmd, pure, undefined, ◌>>=◌, ◌>>◌, call, globals, assign}

-- `(x <= 0) ? default : x`
abbrev pub or_default : ℤ → ℕ → ℕ
or_default x d = if is_nonpos x then d else to_ℕ x

module _ (ipc : Ipc) where
  open ipc use {World, shmget, shmat, shmdt, shmctl_rmid}

  -- `g_s_mqsize * g_s_itemsize + DEFAULT_HEAD_SIZE`, an `int`
  abbrev total_size : Globals → Cmd World ℕ
  total_size g =
      if ltb (g.mqsize * g.itemsize + default_head_size) (2 ^ 31)
      then pure (g.mqsize * g.itemsize + default_head_size)
      else undefined

  -- From `g_s_pbase = shmat(…)` to the end of the block.
  unfoldable pub attach : Bool → ℤ → Cmd World Code
  attach iscreated shmid = do
    base ← call (shmat shmid)
    assign λ g. record g { pbase = base }
    elim base [
      | none ↦ pure Code.shmat
      | some a ↦ do
        assign λ g. record g { phead = some a }
        if iscreated
            then (do
              (a, s) ← Semaphore.load ipc
              Semaphore.store ipc a (init_head s)
              pure Code.success)
            else pure Code.success
    ]

  -- The block between the semaphore operations, left by `break`; its value is `ret`.
  unfoldable pub open_segment : Bool → ℤ → ℤ → Cmd World Code
  open_segment iscreated mqsize itemsize = do
    assign λ g. record g {
      mqsize = or_default mqsize default_mq_size;
      itemsize = or_default itemsize default_item_size;
    }
    g ← globals
    size ← total_size g
    shmid ← call (shmget shm_key size iscreated)
    assign λ g. record g { shmid = shmid }
    if is_minus_one shmid then pure Code.shmget else attach iscreated shmid

  abbrev remove_segment : ℤ → Cmd World ℤ
  remove_segment shmid = if is_neg shmid then pure (pos 0) else call (shmctl_rmid shmid)

  -- What follows the block.
  unfoldable pub open_end : Bool → Code → Cmd World Code
  open_end iscreated ret = do
    g ← globals
    if not (is_success ret) && iscreated
        then (do
          _ ← remove_segment g.shmid
          _ ← Semaphore.semaphore_v ipc g.semid
          _ ← Semaphore.del_semvalue ipc g.semid
          pure ret)
        else (do r ← Semaphore.semaphore_v ipc g.semid; pure (failing r Code.semaphore_v ret))

  unfoldable pub open_locked : Bool → ℤ → ℤ → ℤ → Cmd World Code
  open_locked iscreated mqsize itemsize semid = do
    r ← Semaphore.semaphore_p ipc semid
    if is_minus_one r
        then pure Code.semaphore_p
        else (do ret ← open_segment iscreated mqsize itemsize; open_end iscreated ret)

  unfoldable pub shmmq_open : Bool → ℤ → ℤ → Cmd World Code
  shmmq_open iscreated mqsize itemsize = do
    semid ← Semaphore.get_semvalue ipc sem_key
    assign λ g. record g { semid = semid }
    if is_minus_one semid then pure Code.get_semvalue else do
      r ← (if iscreated then Semaphore.set_semvalue ipc semid else pure (pos 0))
      if is_minus_one r then pure Code.set_semvalue else open_locked iscreated mqsize itemsize semid

  -- `if (g_s_pbase) { … }`; the value is `ret`.
  abbrev pub detach : Option ℕ → Cmd World Code
  detach none = pure Code.success
  detach (some a) = do
    r ← call (shmdt a)
    assign λ g. record g { pbase = none }
    pure (failing r Code.shmdt Code.success)

  abbrev destroy_segment : Code → Cmd World Code
  destroy_segment ret = do
    g ← globals
    if is_neg g.shmid then pure ret else do
      r ← call (shmctl_rmid g.shmid)
      assign λ g. record g { shmid = minus_one }
      pure (failing r Code.shmctl ret)

  abbrev destroy_semaphore : Code → Cmd World Code
  destroy_semaphore ret = do
    g ← globals
    if is_neg g.semid then pure ret else do
      r ← Semaphore.del_semvalue ipc g.semid
      assign λ g. record g { semid = minus_one }
      pure (failing r Code.del_semvalue ret)

  unfoldable pub shmmq_close : Bool → Cmd World Code
  shmmq_close isdestroyed = do
    g ← globals
    ret ← detach g.pbase
    if isdestroyed then (do ret' ← destroy_segment ret; destroy_semaphore ret') else pure ret
