-- ===== src/Shmmq/Semaphore.antt =====
-- shmmq/semutil.c, and what the functions of shmmq/shmmq.c share: the constants, the initial values
-- of the static variables, and the accesses through `g_s_phead` and `g_s_pcontent`.
use cclab.Base.{ℕ, Bool, true, false, Option, none, some, ◌≡◌, arith, if◌then◌else◌}
use cclab.Base.Int.{ℤ, pos, minus_one, is_minus_one, is_neg}
use cclab.Shmmq.Code.{Code}
use cclab.Shmmq.Segment.{Segment}
use cclab.Shmmq.System.{Ipc, Globals, Cmd, pure, ◌>>=◌, call}

abbrev pub default_mq_size : ℕ
default_mq_size = 1024

abbrev pub default_item_size : ℕ
default_item_size = 256

abbrev pub default_head_size : ℕ
default_head_size = 4096

abbrev pub sem_key : ℕ
sem_key = 1024

abbrev pub shm_key : ℕ
shm_key = 1025

-- The initial values of the static variables.
abbrev pub initial : Globals
initial = record {
  semid = minus_one;
  shmid = minus_one;
  mqsize = default_mq_size;
  itemsize = default_item_size;
  pbase = none;
  phead = none;
}

-- `-1` for a failed call, else 0
abbrev pub status : ℤ → ℤ
status r = if is_minus_one r then minus_one else pos 0

abbrev pub is_success : Code → Bool
is_success Code.success = true
is_success _ = false

-- A code's own number for a call that failed, else `c`.
abbrev pub failing : ℤ → Code → Code → Code
failing r e c = if is_minus_one r then e else c

pub is_minus_one-status : (v : ℤ) → is_minus_one (status v) ≡ is_minus_one v
is_minus_one-status v = ground arith

module _ (ipc : Ipc) where
  open ipc use {World, semget, semctl_setval, semctl_rmid, semop, segment, put_segment}

  -- semutil.c
  unfoldable pub get_semvalue : ℕ → Cmd World ℤ
  get_semvalue key = do semid ← call (semget key); pure (if is_neg semid then minus_one else semid)

  unfoldable pub set_semvalue : ℤ → Cmd World ℤ
  set_semvalue semid = do r ← call (semctl_setval semid 1); pure (status r)

  unfoldable pub del_semvalue : ℤ → Cmd World ℤ
  del_semvalue semid = do r ← call (semctl_rmid semid); pure (status r)

  unfoldable pub semaphore_p : ℤ → Cmd World ℤ
  semaphore_p semid = do r ← call (semop semid minus_one); pure (status r)

  unfoldable pub semaphore_v : ℤ → Cmd World ℤ
  semaphore_v semid = do r ← call (semop semid (pos 1)); pure (status r)

  -- Reads and writes through `g_s_phead` and `g_s_pcontent`.
  abbrev pub load_at : Option ℕ → Cmd World (ℕ × Segment)
  load_at none g w = none
  load_at (some a) g w = elim (segment a w) [ none ↦ none | some s ↦ some ((a, s), g, w) ]

  unfoldable pub load : Cmd World (ℕ × Segment)
  load g w = load_at g.phead g w

  load_at-some :
      (p : Option ℕ) (a : ℕ) (s : Segment) (g : Globals) (w : World)
      → p ≡ some a
      → segment a w ≡ some s
      → load_at p g w ≡ some ((a, s), g, w)
  load_at-some p a s g w h e = ground arith

  pub load-mapped :
      (a : ℕ) (s : Segment) (g : Globals) (w : World)
      → g.phead ≡ some a
      → segment a w ≡ some s
      → load g w ≡ some ((a, s), g, w)
  unfolding load
  load-mapped a s g w h e = load_at-some g.phead a s g w h e

  load_at-none :
      (p : Option ℕ) (a : ℕ) (g : Globals) (w : World)
      → p ≡ some a
      → segment a w ≡ none
      → load_at p g w ≡ none
  load_at-none p a g w h e = ground arith

  pub load-unmapped :
      (a : ℕ) (g : Globals) (w : World) → g.phead ≡ some a → segment a w ≡ none → load g w ≡ none
  unfolding load
  load-unmapped a g w h e = load_at-none g.phead a g w h e

  abbrev pub store : ℕ → Segment → Cmd World (Unit {0})
  store a s g w = some (tt, g, put_segment a s w)
