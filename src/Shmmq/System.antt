-- ===== src/Shmmq/System.antt =====
-- What shmmq asks of the operating system (System V semaphores and shared memory), as an interface,
-- and the commands of a process over it.
use cclab.Base.{ℕ, Bool, Option, none, some}
use cclab.Base.Int.{ℤ}
use cclab.Shmmq.Segment.{Segment}

-- A call returns its result and the world after it; while a process waits in `semop`, others run, so
-- the world after it is any other. Memory is reached through the address that `shmat` returned;
-- `none` is an address at which nothing is mapped.
pub record Ipc : Type 1 where
  pub World : Type 0
  -- `semget(key, 1, 0666 | IPC_CREAT)`
  pub semget : ℕ → World → ℤ × World
  -- `semctl(id, 0, SETVAL, v)` and `semctl(id, 0, IPC_RMID, …)`
  pub semctl_setval : ℤ → ℕ → World → ℤ × World
  pub semctl_rmid : ℤ → World → ℤ × World
  -- `semop` on semaphore 0 of the set, with SEM_UNDO
  pub semop : ℤ → ℤ → World → ℤ × World
  -- `shmget(key, size, flags)`, with IPC_CREAT among the flags or not
  pub shmget : ℕ → ℕ → Bool → World → ℤ × World
  -- `shmat(id, NULL, 0)`; `none` is `(void *)-1`
  pub shmat : ℤ → World → Option ℕ × World
  pub shmdt : ℕ → World → ℤ × World
  -- `shmctl(id, IPC_RMID, 0)`
  pub shmctl_rmid : ℤ → World → ℤ × World
  pub segment : ℕ → World → Option Segment
  pub put_segment : ℕ → Segment → World → World

-- The static variables of shmmq.c. `g_s_pcontent` is `g_s_phead` plus DEFAULT_HEAD_SIZE wherever
-- the code sets the two, so one address stands for both.
pub record Globals : Type 0 where
  pub semid : ℤ
  pub shmid : ℤ
  pub mqsize : ℕ
  pub itemsize : ℕ
  pub pbase : Option ℕ
  pub phead : Option ℕ

-- `none` is undefined behaviour: an access through a pointer that is NULL or maps nothing, a buffer
-- that is too short, or an overflow of `int`.
abbrev pub Cmd : Type 0 → Type 0 → Type 0
Cmd W A = Globals → W → Option (A × Globals × W)

module _ {W : Type 0} where
  abbrev pub pure : {A : Type 0} → A → Cmd W A
  pure a g w = some (a, g, w)

  abbrev pub undefined : {A : Type 0} → Cmd W A
  undefined g w = none

  abbrev pub and_then :
      {A B : Type 0} → Option (A × Globals × W) → (A → Cmd W B) → Option (B × Globals × W)
  and_then none k = none
  and_then (some (a, g, w)) k = k a g w

  infixl 5 ◌>>=◌ ◌>>◌
  abbrev pub ◌>>=◌ : {A B : Type 0} → Cmd W A → (A → Cmd W B) → Cmd W B
  ◌>>=◌ m k g w = and_then (m g w) k

  abbrev pub ◌>>◌ : {B : Type 0} → Cmd W (Unit {0}) → Cmd W B → Cmd W B
  m >> k = m >>= λ _. k

  abbrev pub call : {A : Type 0} → (W → A × W) → Cmd W A
  call f g w = let (a, w') = f w in some (a, g, w')

  abbrev pub globals : Cmd W Globals
  globals g w = some (g, g, w)

  abbrev pub assign : (Globals → Globals) → Cmd W (Unit {0})
  assign f g w = some (tt, f g, w)
