-- ===== src/Tcp/Server.antt =====
-- httpserver/tcp_server.h, httpserver/tcp_server.cc, httpserver/http_server.cc: the callbacks of `TcpServer`
-- and of `HttpServer`, and what the socket does with a connection.
use cclab.Base.{ℕ, suc, ◌<◌, ◌≤◌, ◌≡◌, true, false, Option, none, some, List, [], ◌∷◌, ◌++◌, length}
use cclab.Base.Bytes.{copy_in, copy_out}
use cclab.Iobuf.Ops.{and_then}
use cclab.Tcp.Connection.{
  Connection, Server, max_msg, set_context, close, async_read, async_write, on_read, on_write,
}

module _ {ℓ} {σ : Type ℓ} where
  abbrev pub tcp_server : Server σ
  tcp_server = record {
    on_new_connection = async_read;
    on_connection_error = close;
    on_message = λ msg size c. some c;
    on_write_complete = λ size c. c;
  }

  -- The messages that the callbacks of a request write, one after the other.
  abbrev pub write_all : List (List ℕ) → Connection σ → Option (Connection σ)
  write_all [] c = some c
  write_all (msg ∷ msgs) c = and_then (async_write msg c) (write_all msgs)

  -- `boost::any_cast` of a context that is not there throws.
  abbrev pub with_context :
      (List ℕ → ℕ → σ → Option (σ × List (List ℕ)))
      → List ℕ
      → ℕ
      → Option σ
      → Connection σ
      → Option (Connection σ)
  with_context parse msg size none c = none
  with_context parse msg size (some s) c =
      and_then (parse msg size s) (λ (s', replies). write_all replies (set_context s' c))

  -- `HttpServer`: `parse` gives the new context and what `Parse` has the connection write, or a fault.
  abbrev pub http_server : σ → (List ℕ → ℕ → σ → Option (σ × List (List ℕ))) → Server σ
  http_server new_context parse = record {
    on_new_connection = λ c. async_read (set_context new_context c);
    on_connection_error = close;
    on_message = λ msg size c. with_context parse msg size c.context c;
    on_write_complete = λ size c. c;
  }

  -- `TcpServer::HandleAccept`, of the connection that is accepted.
  abbrev pub handle_accept : Server σ → Connection σ → Connection σ
  handle_accept server c = server.on_new_connection c

  -- An operation ends: a read with the bytes of a message, a write with as many bytes gone as the socket
  -- takes, or either with an error.
  abbrev pub received : Server σ → List ℕ → ℕ → Connection σ → Option (Connection σ)
  received server msg left c =
      on_read server false (length msg)
        (record c { reads = left; read_buffer = copy_in c.read_buffer 0 msg })

  abbrev pub sent : Server σ → ℕ → List ℕ → Connection σ → Option (Connection σ)
  sent server size left c =
      on_write server false size
        (record c { writes = left; wire = c.wire ++ copy_out c.write_buffer 0 size })

  pub data Step (server : Server σ) : List (List ℕ) → Connection σ → Connection σ → Type ℓ where
    step_read :
        (msg : List ℕ) (left : ℕ) (c c' : Connection σ)
        → c.reads ≡ suc left
        → 0 < length msg
        → length msg ≤ max_msg
        → received server msg left c ≡ some c'
        → Step server (msg ∷ []) c c'
    step_read_error :
        (left : ℕ) (c c' : Connection σ)
        → c.reads ≡ suc left
        → on_read server true 0 (record c { reads = left }) ≡ some c'
        → Step server [] c c'
    step_write :
        (n size : ℕ) (left : List ℕ) (c c' : Connection σ)
        → c.writes ≡ n ∷ left
        → size ≤ n
        → sent server size left c ≡ some c'
        → Step server [] c c'
    step_write_error :
        (n : ℕ) (left : List ℕ) (c c' : Connection σ)
        → c.writes ≡ n ∷ left
        → on_write server true 0 (record c { writes = left }) ≡ some c'
        → Step server [] c c'

  -- Steps one after the other, with the messages that were read.
  pub data Steps (server : Server σ) : List (List ℕ) → Connection σ → Connection σ → Type ℓ where
    stay : (c : Connection σ) → Steps server [] c c
    go :
        (ms ns : List (List ℕ)) (c d e : Connection σ)
        → Steps server ms c d
        → Step server ns d e
        → Steps server (ms ++ ns) c e
