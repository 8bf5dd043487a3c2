-- ===== src/Tcp/Connection.antt =====
-- httpserver/tcp_server.h, httpserver/tcp_server.cc: the class `TcpConnection`. Of the socket the model has
-- the operations that wait on it and the bytes that have gone out.
use cclab.Base.{
  ℕ, ◌+◌, Bool, true, false, Option, none, some, List, [], ◌∷◌, ◌++◌, if◌then◌else◌, leb, length,
}
use cclab.Base.Bytes.{Bytes, copy_in, copy_out}

abbrev pub max_msg : ℕ
max_msg = 4096

-- `reads` operations of `async_read_some` wait, and those of `async_write_some` with the sizes `writes`.
pub record Connection {ℓ} (σ : Type ℓ) : Type ℓ where
  pub is_open : Bool
  pub reads : ℕ
  pub writes : List ℕ
  pub wire : List ℕ
  pub read_buffer : Bytes
  pub write_buffer : Bytes
  pub context : Option σ

-- The virtual functions of `TcpServer`, which the connection calls.
pub record Server {ℓ} (σ : Type ℓ) : Type ℓ where
  pub on_new_connection : Connection σ → Connection σ
  pub on_connection_error : Connection σ → Connection σ
  pub on_message : List ℕ → ℕ → Connection σ → Option (Connection σ)
  pub on_write_complete : ℕ → Connection σ → Connection σ

module _ {ℓ} {σ : Type ℓ} where
  -- `TcpConnection::CreateConnection`, accepted: what stands in the arrays is not known.
  abbrev pub create_connection : Bytes → Bytes → Connection σ
  create_connection read_buffer write_buffer = record {
    is_open = true;
    reads = 0;
    writes = [];
    wire = [];
    read_buffer = read_buffer;
    write_buffer = write_buffer;
    context = none;
  }

  abbrev pub set_context : σ → Connection σ → Connection σ
  set_context s c = record c { context = some s }

  abbrev pub close : Connection σ → Connection σ
  close c = record c { is_open = false }

  abbrev pub async_read : Connection σ → Connection σ
  async_read c = record c { reads = c.reads + 1 }

  -- `std::copy` past the array is `none`.
  unfoldable pub async_write : List ℕ → Connection σ → Option (Connection σ)
  async_write msg c =
      if leb (length msg) max_msg
      then some (record c {
        write_buffer = copy_in c.write_buffer 0 msg;
        writes = c.writes ++ (length msg ∷ []);
      })
      else none

  unfoldable pub on_read : Server σ → Bool → ℕ → Connection σ → Option (Connection σ)
  on_read server ec size c =
      if ec
      then some (server.on_connection_error c)
      else server.on_message (copy_out c.read_buffer 0 size) size c

  unfoldable pub on_write : Server σ → Bool → ℕ → Connection σ → Option (Connection σ)
  on_write server ec size c =
      some (if ec then server.on_connection_error c else server.on_write_complete size c)
