-- ===== src/Shmmq/Lifetime.antt =====
-- shmmq/shmmq.c: what `shmmq_open` and `shmmq_close` leave behind.
use cclab.Base.{
  ℕ, ◌+◌, ◌*◌, ◌^◌, ◌≤◌, ◌<◌, ◌≡◌, refl, true, false, Option, none, some, List, [], arith, ltb,
}
use cclab.Base.Int.{ℤ, pos, minus_one}
use cclab.Shmmq.Code.{Code}
use cclab.Shmmq.Segment.{Segment, init_head}
use cclab.Shmmq.Slots.{IsValid, contents}
use cclab.Shmmq.Refine.{init_head_lem}
use cclab.Shmmq.Semaphore.{
  default_mq_size, default_item_size, default_head_size, sem_key, shm_key, failing, get_semvalue,
  set_semvalue, del_semvalue, semaphore_p, semaphore_v, load-mapped, load-unmapped,
  is_minus_one-status,
}
use cclab.Shmmq.Lifecycle.{
  or_default, attach, detach, open_segment, open_end, open_locked, shmmq_open, shmmq_close,
}
use cclab.Shmmq.Transfer.{shmmq_enqueue, enqueue_locked, bad_size}
use cclab.Shmmq.System.{Ipc, Globals}

-- The bytes that `shmmq_open` asks for.
abbrev pub bytes_asked : ℤ → ℤ → ℕ
bytes_asked mq it =
    or_default mq default_mq_size * or_default it default_item_size + default_head_size

-- The static variables after a successful `shmmq_open`.
abbrev pub opened : (semid shmid : ℤ) (a : ℕ) (mq it : ℤ) → Globals
opened semid shmid a mq it = record {
  semid = semid;
  shmid = shmid;
  mqsize = or_default mq default_mq_size;
  itemsize = or_default it default_item_size;
  pbase = some a;
  phead = some a;
}

or_default-pos : (x : ℤ) (d : ℕ) → 0 < d → 0 < or_default x d
or_default-pos x d h = ground arith

module _ (ipc : Ipc) where
  open ipc use {
    World, semget, semctl_setval, semctl_rmid, semop, shmget, shmat, shmdt, shmctl_rmid, segment,
    put_segment,
  }

  -- The calls that `shmmq_open(1, …)` makes before it touches the segment, all successful.
  pub record Granted (semid shmid a : ℕ) (mq it : ℤ) (w w₅ : World) (s : Segment) : Type 0 where
    pub w₁ : World
    pub w₂ : World
    pub w₃ : World
    pub w₄ : World
    pub got_set : semget sem_key w ≡ (pos semid, w₁)
    pub value_set : semctl_setval (pos semid) 1 w₁ ≡ (pos 0, w₂)
    pub acquired : semop (pos semid) minus_one w₂ ≡ (pos 0, w₃)
    pub got_shm : shmget shm_key (bytes_asked mq it) true w₃ ≡ (pos shmid, w₄)
    pub got_base : shmat (pos shmid) w₄ ≡ (some a, w₅)
    pub mapped : segment a w₅ ≡ some s

  open_run :
      (semid shmid a : ℕ) (mq it : ℤ) (g : Globals) (w u : World) (s : Segment)
      → bytes_asked mq it < 2 ^ 31
      → Granted semid shmid a mq it w u s
      → shmmq_open ipc true mq it g w ≡ (
          let (v, u') = semop (pos semid) (pos 1) (put_segment a (init_head s) u) in
          some
            (failing v Code.semaphore_v Code.success, opened (pos semid) (pos shmid) a mq it, u'))
  unfolding shmmq_open open_locked open_segment open_end attach get_semvalue set_semvalue
      semaphore_p semaphore_v
  open_run semid shmid a mq it g w u s small c =
      let e : ltb (bytes_asked mq it) (2 ^ 31) ≡ true = ground arith in
      rw (
        c.got_set,
        c.value_set,
        c.acquired,
        e,
        c.got_shm,
        c.got_base,
        load-mapped ipc a s (opened (pos semid) (pos shmid) a mq it) u refl c.mapped,
        is_minus_one-status,
      )

  -- When every call is granted and the size is an `int`, `shmmq_open(1, …)` sets the static variables,
  -- resets the head while it holds the semaphore, so that the queue is valid and empty, and returns
  -- success or the error of the release.
  pub open_creates :
      (semid shmid a : ℕ) (mq it : ℤ) (g : Globals) (w u : World) (s : Segment)
      → bytes_asked mq it < 2 ^ 31
      → Granted semid shmid a mq it w u s
      → (shmmq_open ipc true mq it g w ≡ (
          let (v, u') = semop (pos semid) (pos 1) (put_segment a (init_head s) u) in
          some
            (failing v Code.semaphore_v Code.success, opened (pos semid) (pos shmid) a mq it, u')))
        × IsValid (or_default mq default_mq_size) (init_head s)
        × (contents (or_default mq default_mq_size) (or_default it default_item_size) (init_head s)
            ≡ [])
  open_creates semid shmid a mq it g w u s small c =
      let m : ℕ = or_default mq default_mq_size in
      let (valid, empty) =
        init_head_lem m (or_default it default_item_size) s
          (or_default-pos mq default_mq_size (omega arith)) in
      (open_run semid shmid a mq it g w u s small c, valid, empty)

  -- When `shmget` refuses a segment that is to be created, `shmmq_open` releases the semaphore,
  -- removes it, and returns the error of `shmget`.
  pub open_refused :
      (semid : ℕ) (mq it : ℤ) (g : Globals) (w w₁ w₂ w₃ w₄ : World)
      → bytes_asked mq it < 2 ^ 31
      → semget sem_key w ≡ (pos semid, w₁)
      → semctl_setval (pos semid) 1 w₁ ≡ (pos 0, w₂)
      → semop (pos semid) minus_one w₂ ≡ (pos 0, w₃)
      → shmget shm_key (bytes_asked mq it) true w₃ ≡ (minus_one, w₄)
      → (g' : Globals) × (shmmq_open ipc true mq it g w
          ≡ some (Code.shmget, g', (semctl_rmid (pos semid) (semop (pos semid) (pos 1) w₄).1).1))
        × (g'.shmid ≡ minus_one)
  unfolding shmmq_open open_locked open_segment open_end get_semvalue set_semvalue semaphore_p
      semaphore_v del_semvalue
  open_refused semid mq it g w w₁ w₂ w₃ w₄ small e₁ e₂ e₃ e₄ =
      let e : ltb (bytes_asked mq it) (2 ^ 31) ≡ true = ground arith in
      (
        record g {
          semid = pos semid;
          mqsize = or_default mq default_mq_size;
          itemsize = or_default it default_item_size;
          shmid = minus_one;
        },
        rw (e₁, e₂, e₃, e, e₄),
        refl,
      )

  detach_lem :
      (a : ℕ) (p : Option ℕ) (g : Globals) (w m : World)
      → p ≡ some a
      → shmdt a w ≡ (pos 0, m)
      → detach ipc p g w ≡ some (Code.success, record g { pbase = none }, m)
  detach_lem a p g w m base gone = ground arith

  -- `shmmq_close(0)` keeps the pointer to the head and the semaphore: where the address is no longer
  -- mapped and the semaphore can be acquired, the next `shmmq_enqueue` with good arguments accesses
  -- memory that is not there.
  pub close_dangles :
      (buffer : List ℕ) (n a : ℕ) (g : Globals) (w m₁ m₂ : World)
      → 0 < n
      → n ≤ g.itemsize
      → g.pbase ≡ some a
      → g.phead ≡ some a
      → shmdt a w ≡ (pos 0, m₁)
      → semop g.semid minus_one m₁ ≡ (pos 0, m₂)
      → segment a m₂ ≡ none
      → (shmmq_close ipc false g w ≡ some (Code.success, record g { pbase = none }, m₁))
        × (shmmq_enqueue ipc (some buffer) (pos n) (record g { pbase = none }) m₁ ≡ none)
  unfolding shmmq_close shmmq_enqueue enqueue_locked semaphore_p
  close_dangles buffer n a g w m₁ m₂ lo hi base head gone acquired unmapped =
      let e : bad_size g (pos n) ≡ false = ground arith in
      (
        rw (detach_lem a g.pbase g w m₁ base gone),
        rw (e, acquired, load-unmapped ipc a (record g { pbase = none }) m₂ head unmapped),
      )
