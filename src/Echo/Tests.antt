-- ===== src/Echo/Tests.antt =====
-- ae/main.c: the theorem at a socket that takes one byte at a time, and the code run on it.
use cclab.Base.{
  Bool-cases, inl, inr, false, if◌then◌else◌, ◌==◌, ◌-◌, ◌<◌, ℕ, ◌≤◌, ◌≡◌, refl, sym, some, List,
  [], ◌∷◌, ◌++◌, length, take, append-nil, arith,
}
use cclab.Base.Int.{ℤ, pos, minus_one, is_nonpos, to_ℕ}
use cclab.Echo.System.{System, again, interrupted, other}
use cclab.Echo.Server.{send_loop, non_block_send, handle_drive_machine}
use cclab.Echo.Send.{SendsPrefix, AreTemporary, Sent, non_block_send_refines}

-- `send` of one byte; the world is the bytes that are on the way.
abbrev send_one : List ℕ → List ℕ → ℤ × List ℕ
send_one [] w = (pos 0, w)
send_one (x ∷ xs) w = (pos 1, w ++ (x ∷ []))

abbrev slow : System (List ℕ)
slow = record {
  errno = λ w. other;
  get_flags = λ fd w. (pos 0, w);
  set_flags = λ fd flags w. (pos 0, w);
  socket = λ w. (pos 3, w);
  reuse_address = λ fd w. w;
  bind = λ fd port w. (pos 0, w);
  listen = λ fd n w. (pos 0, w);
  accept = λ fd w. (pos 4, w);
  read = λ fd n w. (pos 1, w);
  send = λ fd xs w. send_one xs w;
  close = λ fd w. w;
  create_file_event = λ fd handler w. w;
  delete_file_event = λ fd w. w;
  run_events = λ w. w;
}

one_bound : (xs w : List ℕ) → to_ℕ (send_one xs w).0 ≤ length xs
one_bound [] w = omega arith
one_bound (x ∷ xs) w = omega arith

one_sent : (xs w : List ℕ) → (send_one xs w).1 ≡ w ++ take (to_ℕ (send_one xs w).0) xs
one_sent [] w = sym (append-nil w)
one_sent (x ∷ xs) w = refl

slow-SendsPrefix : SendsPrefix slow (λ fd w. w)
slow-SendsPrefix = record { bound = λ fd xs w. one_bound xs w; sent = λ fd xs w. one_sent xs w }

-- The socket is full once, and the call is interrupted once, before a byte goes out.
abbrev World : Type 0
World = List ℕ × ℕ

abbrev send_later : List ℕ → World → ℤ × World
send_later xs (w, n) =
    let (rv, w') = send_one xs w in if n == 0 then (rv, (w', 0)) else (minus_one, (w, n - 1))

abbrev busy : System World
busy = record {
  errno = λ w. if w.1 == 0 then interrupted else again;
  get_flags = λ fd w. (pos 0, w);
  set_flags = λ fd flags w. (pos 0, w);
  socket = λ w. (pos 3, w);
  reuse_address = λ fd w. w;
  bind = λ fd port w. (pos 0, w);
  listen = λ fd n w. (pos 0, w);
  accept = λ fd w. (pos 4, w);
  read = λ fd n w. (pos 1, w);
  send = λ fd xs w. send_later xs w;
  close = λ fd w. w;
  create_file_event = λ fd handler w. w;
  delete_file_event = λ fd w. w;
  run_events = λ w. w;
}

busy-SendsPrefix : SendsPrefix busy (λ fd w. w.0)
busy-SendsPrefix = record {
  bound = λ fd xs w. elim (Bool-cases (w.1 == 0)) [
    | inl y ↦ rw y (one_bound xs w.0)
    | inr z ↦ rw z (omega arith)
  ];
  sent = λ fd xs w. elim (Bool-cases (w.1 == 0)) [
    | inl y ↦ rw y (one_sent xs w.0)
    | inr z ↦ rw z (sym (append-nil w.0))
  ];
}

sends_some : (xs w : List ℕ) → 0 < length xs → is_nonpos (send_one xs w).0 ≡ false
sends_some [] w lt = absurd (omega arith)
sends_some (x ∷ xs) w lt = refl

busy-AreTemporary : AreTemporary busy (λ fd w. w.0) (λ w. w.1)
busy-AreTemporary = record {
  fewer = λ fd xs w some_bytes e p. elim (Bool-cases (w.1 == 0)) [
    | inl y ↦
        let f : is_nonpos (send_later xs w).0 ≡ false = rw y (sends_some xs w.0 some_bytes) in
        absurd (cc (e, f))
    | inr z ↦ rw z (ground (arith, z))
  ];
  no_more = λ fd xs w. elim (Bool-cases (w.1 == 0)) [
    | inl y ↦ rw y (omega arith)
    | inr z ↦ rw z (omega arith)
  ];
}

non_block_send_refines_example :
    Sent busy
      (λ fd w. w.0)
      (non_block_send busy 5 (pos 4) (111 ∷ 107 ∷ []) ([], 2))
      (pos 4)
      (111 ∷ 107 ∷ [])
      ([], 2)
non_block_send_refines_example =
    non_block_send_refines busy (λ fd w. w.0) busy-SendsPrefix (λ w. w.1) busy-AreTemporary 5
      (pos 4) (111 ∷ 107 ∷ []) ([], 2) (omega arith)

answered : handle_drive_machine slow 3 (pos 4) [] ≡ some (111 ∷ 107 ∷ [])
unfolding handle_drive_machine non_block_send send_loop
answered = refl
