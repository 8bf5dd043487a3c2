-- ===== src/Echo/System.antt =====
-- ae/main.c: what the server calls. The system calls and the event library are fields of a record of
-- functions on a world.
use cclab.Base.{ℕ, List}
use cclab.Base.Int.{ℤ}

-- The handlers that the server gives to the event library.
pub data Handler : Type 0 where
  drive_machine accept_handler : Handler

-- The values of `errno` that the server tells apart. `would_block` is `EWOULDBLOCK` where it differs from
-- `EAGAIN`; elsewhere, as on Linux, it does not occur.
pub data Errno : Type 0 where
  again would_block interrupted no_buffers other : Errno

pub record System {ℓ} (W : Type ℓ) : Type ℓ where
  pub errno : W → Errno
  pub get_flags : ℤ → W → ℤ × W
  pub set_flags : ℤ → ℕ → W → ℤ × W
  pub socket : W → ℤ × W
  pub reuse_address : ℤ → W → W
  pub bind : ℤ → ℕ → W → ℤ × W
  pub listen : ℤ → ℕ → W → ℤ × W
  pub accept : ℤ → W → ℤ × W
  pub read : ℤ → ℕ → W → ℤ × W
  pub send : ℤ → List ℕ → W → ℤ × W
  pub close : ℤ → W → W
  pub create_file_event : ℤ → Handler → W → W
  pub delete_file_event : ℤ → W → W
  pub run_events : W → W
