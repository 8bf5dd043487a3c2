-- ===== src/Echo/Server.antt =====
-- ae/main.c: the functions of the server. `none` is a loop whose fuel has run out; `exit(1)` is a result
-- without a descriptor.
use Prim.Native.Nat.{bit_or}
use cclab.Base.{
  ℕ, zero, suc, Bool, true, false, Option, none, some, List, [], ◌∷◌, ◌==◌, if◌then◌else◌, length,
  drop,
}
use cclab.Base.Int.{ℤ, pos, negsuc, minus_one, is_minus_one, is_neg, is_nonpos, to_ℕ}
use cclab.Echo.System.{
  drive_machine, accept_handler, Errno, again, would_block, interrupted, no_buffers, other, System,
}

abbrev pub read_buffer_length : ℕ
read_buffer_length = 4096

abbrev pub server_port : ℕ
server_port = 9999

abbrev pub listen_queue_length : ℕ
listen_queue_length = 32

-- `O_NONBLOCK` and `FD_CLOEXEC` of Linux
abbrev pub o_nonblock : ℕ
o_nonblock = 2048

abbrev pub fd_cloexec : ℕ
fd_cloexec = 1

-- `EAGAIN` or `EWOULDBLOCK`, which may be one value, and the values on which `non_block_send` tries again
abbrev pub is_blocked : Errno → Bool
is_blocked again = true
is_blocked would_block = true
is_blocked interrupted = false
is_blocked no_buffers = false
is_blocked other = false

abbrev pub is_retried : Errno → Bool
is_retried again = true
is_retried would_block = false
is_retried interrupted = true
is_retried no_buffers = true
is_retried other = false

abbrev is_zero : ℤ → Bool
is_zero (pos n) = n == 0
is_zero (negsuc n) = false

module _ {ℓ} {W : Type ℓ} (sys : System W) where
  -- The second half of `set_nonblocking` and of `set_closexec`
  abbrev pub add_flag : ℤ → ℕ → ℤ × W → ℤ × W
  add_flag fd flag (flags, w) =
      if is_neg flags
      then (minus_one, w)
      else (let (rv, w') = sys.set_flags fd (bit_or (to_ℕ flags) flag) w in
          (if is_neg rv then minus_one else pos 0, w'))

  unfoldable pub set_nonblocking : ℤ → W → ℤ × W
  set_nonblocking fd w = add_flag fd o_nonblock (sys.get_flags fd w)

  unfoldable pub set_closexec : ℤ → W → ℤ × W
  set_closexec fd w = add_flag fd fd_cloexec (sys.get_flags fd w)

  -- `init_server`: the server's descriptor, or `exit(1)`.
  abbrev pub listening : ℤ → ℤ × W → Option ℤ × W
  listening fd (rv, w) =
      if is_neg rv
      then (none, w)
      else (let (rv', w') = set_nonblocking fd w in
          (if is_minus_one rv' then none else some fd, w'))

  abbrev pub bound : ℤ → ℤ × W → Option ℤ × W
  bound fd (rv, w) =
      if is_neg rv then (none, w) else listening fd (sys.listen fd listen_queue_length w)

  abbrev pub opened : ℤ × W → Option ℤ × W
  opened (fd, w) =
      if is_neg fd then (none, w) else bound fd (sys.bind fd server_port (sys.reuse_address fd w))

  unfoldable pub init_server : W → Option ℤ × W
  init_server w = opened (sys.socket w)

  -- The loop of `non_block_send`, with the bytes from `buffer + cp` on: what it returns.
  unfoldable pub send_loop : ℕ → ℤ → List ℕ → W → Option (ℤ × W)
  send_loop zero fd left w = none
  send_loop (suc fuel) fd left w =
      let (rv, w') = sys.send fd left w in
      let next = send_loop fuel fd (drop (to_ℕ rv) left) w' in
      let again = send_loop fuel fd left w' in
      if length left == 0
      then some (pos 0, w)
      else if is_nonpos rv
      then (if is_retried (sys.errno w') then again else some (minus_one, w'))
      else next

  unfoldable pub non_block_send : ℕ → ℤ → List ℕ → W → Option (ℤ × W)
  non_block_send fuel fd buffer w = send_loop fuel fd buffer w

  -- "ok"
  abbrev pub say : List ℕ
  say = 111 ∷ 107 ∷ []

  abbrev pub hang_up : ℤ → W → W
  hang_up fd w = sys.close fd (sys.delete_file_event fd w)

  abbrev pub without_result : Option (ℤ × W) → Option W
  without_result none = none
  without_result (some (rv, w)) = some w

  -- `drive_machine`
  abbrev pub answer : ℕ → ℤ → ℤ × W → Option W
  answer fuel fd (rl, w) =
      if is_minus_one rl
      then some (if is_blocked (sys.errno w) then w else hang_up fd w)
      else if is_zero rl
      then some (hang_up fd w)
      else without_result (non_block_send fuel fd say w)

  unfoldable pub handle_drive_machine : ℕ → ℤ → W → Option W
  handle_drive_machine fuel fd w = answer fuel fd (sys.read fd read_buffer_length w)

  -- `accept_handler`
  abbrev pub closexec_set : ℤ → ℤ × W → W
  closexec_set fd (rv, w) =
      if is_minus_one rv then sys.close fd w else sys.create_file_event fd drive_machine w

  abbrev pub nonblocking_set : ℤ → ℤ × W → W
  nonblocking_set fd (rv, w) =
      if is_minus_one rv then sys.close fd w else closexec_set fd (set_closexec fd w)

  abbrev pub accepted : ℤ × W → W
  accepted (fd, w) = if is_neg fd then w else nonblocking_set fd (set_nonblocking fd w)

  unfoldable pub handle_accept_handler : ℤ → W → W
  handle_accept_handler fd w = accepted (sys.accept fd w)

  -- `main`: the event library runs the handlers.
  abbrev pub served : Option ℤ × W → W
  served (none, w) = w
  served (some fd, w) = sys.run_events (sys.create_file_event fd accept_handler w)

  unfoldable pub main : W → W
  main w = served (init_server w)
