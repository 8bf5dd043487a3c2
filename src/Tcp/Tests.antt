-- ===== src/Tcp/Tests.antt =====
-- httpserver/tcp_server.cc: the theorems at a small connection, and the code run on small inputs.
use cclab.Base.{
  ℕ, ◌+◌, ◌≤◌, ◌≡◌, refl, true, false, Option, none, some, List, [], ◌∷◌, length, arith,
}
use cclab.Base.Bytes.{Bytes, copy_in, copy_out}
use cclab.Iobuf.Ops.{and_then}
use cclab.Tcp.Connection.{Connection, create_connection, async_write, on_read, on_write}
use cclab.Tcp.Server.{
  http_server, tcp_server, write_all, sent, handle_accept, step_read, Steps, stay, go,
}
use cclab.Base.Pointers.{update}
use cclab.Tcp.Acceptor.{
  TcpServer, new_server, start_server, handle_accept_of, Run, started, accept_ends, operation_ends,
  IsServing, Run-IsServing,
}
use cclab.Tcp.Reads.{http_server-ReadsOnce}
use cclab.Tcp.Writes.{write_in_turn, write_in_turn_refines}

abbrev fresh : Connection ℕ
fresh = create_connection (λ i. 0) (λ i. 0)

-- An application that counts messages and writes what it has read.
abbrev echo : List ℕ → ℕ → ℕ → Option (ℕ × List (List ℕ))
echo msg size s = some (s + 1, msg ∷ [])

abbrev after_one : Connection ℕ
after_one = record {
  is_open = true;
  reads = 0;
  writes = 2 ∷ [];
  wire = [];
  read_buffer = copy_in (λ i. 0) 0 (7 ∷ 8 ∷ []);
  write_buffer = copy_in (λ i. 0) 0 (7 ∷ 8 ∷ []);
  context = some 1;
}

one_read :
    Steps
      (http_server 0 echo)
      ((7 ∷ 8 ∷ []) ∷ [])
      (handle_accept (http_server 0 echo) fresh)
      after_one
unfolding on_read async_write copy_out copy_in
one_read =
    go [] ((7 ∷ 8 ∷ []) ∷ []) (handle_accept (http_server 0 echo) fresh)
      (handle_accept (http_server 0 echo) fresh) after_one
      (stay (handle_accept (http_server 0 echo) fresh))
      (step_read (7 ∷ 8 ∷ []) 0 (handle_accept (http_server 0 echo) fresh) after_one refl
        (omega arith) (omega arith) refl)

http_server-ReadsOnce_example : length {A = List ℕ} ((7 ∷ 8 ∷ []) ∷ []) ≤ 1
http_server-ReadsOnce_example =
    http_server-ReadsOnce 0 echo fresh after_one ((7 ∷ 8 ∷ []) ∷ []) refl one_read

written_in_turn :
    (c' : Connection ℕ) × (write_in_turn ((7 ∷ 8 ∷ []) ∷ (9 ∷ []) ∷ []) fresh ≡ some c')
    × (c'.wire ≡ 7 ∷ 8 ∷ 9 ∷ [])
written_in_turn =
    write_in_turn_refines ((7 ∷ 8 ∷ []) ∷ (9 ∷ []) ∷ []) fresh (omega arith, (omega arith, tt))

abbrev wire_of : Option (Connection ℕ) → List ℕ
wire_of none = []
wire_of (some c) = c.wire

-- Two messages are written before the socket takes the first: it goes out as the second.
abbrev overlapped : Option (Connection ℕ)
overlapped =
    and_then (write_all ((7 ∷ 8 ∷ []) ∷ (9 ∷ 9 ∷ []) ∷ []) fresh)
      (λ c. and_then (sent tcp_server 2 (2 ∷ []) c) (sent tcp_server 2 []))

overlapped_wire : wire_of overlapped ≡ 9 ∷ 9 ∷ 9 ∷ 9 ∷ []
unfolding async_write on_write copy_out copy_in
overlapped_wire = refl

-- A server that echoes: the first client's connection has read a message, the second's accept has failed.
abbrev no_arrays : ℕ → Bytes
no_arrays k i = 0

abbrev one_client : TcpServer ℕ
one_client =
    handle_accept_of (http_server 0 echo) no_arrays no_arrays false 0 []
      (start_server no_arrays no_arrays (new_server no_arrays no_arrays))

abbrev two_clients : TcpServer ℕ
two_clients =
    handle_accept_of (http_server 0 echo) no_arrays no_arrays true 1 []
      (record one_client { connections = update one_client.connections 0 after_one })

two_clients-Run : Run (http_server 0 echo) no_arrays no_arrays two_clients
unfolding start_server handle_accept_of on_read async_write copy_out copy_in
two_clients-Run =
    accept_ends true 1 []
      (record one_client { connections = update one_client.connections 0 after_one })
      (operation_ends 0 ((7 ∷ 8 ∷ []) ∷ []) after_one one_client
        (accept_ends false 0 [] (start_server no_arrays no_arrays (new_server no_arrays no_arrays))
          started refl)
        (step_read (7 ∷ 8 ∷ []) 0 (handle_accept (http_server 0 echo) fresh) after_one refl
          (omega arith) (omega arith) refl))
      refl

Run-IsServing_example : IsServing (http_server 0 echo) no_arrays no_arrays two_clients
Run-IsServing_example =
    Run-IsServing (http_server 0 echo) no_arrays no_arrays two_clients two_clients-Run
