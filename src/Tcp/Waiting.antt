-- ===== src/Tcp/Waiting.antt =====
-- httpserver/tcp_server.cc: messages that `AsyncWrite` takes at once.
use cclab.Base.{
  ℕ, ◌≡◌, refl, sym, ◌∙◌, true, some, List, [], ◌∷◌, ◌++◌, map, leb, length, append_assoc,
  append-nil, arith,
}
use cclab.Base.Bytes.{Bytes, copy_in}
use cclab.Tcp.Connection.{Connection, max_msg, async_write}
use cclab.Tcp.Server.{write_all}
use cclab.Tcp.Writes.{AreShort}

-- The array of a connection after messages are written.
abbrev pub written_over : Bytes → List (List ℕ) → Bytes
written_over b [] = b
written_over b (msg ∷ msgs) = written_over (copy_in b 0 msg) msgs

-- Messages of at most 4096 bytes that are written at once all wait, in their order.
pub record Written {ℓ} {σ : Type ℓ} (msgs : List (List ℕ)) (c : Connection σ) : Type ℓ where
  pub after : Connection σ
  pub done : write_all msgs c ≡ some after
  pub writes : after.writes ≡ c.writes ++ map length msgs
  pub write_buffer : after.write_buffer ≡ written_over c.write_buffer msgs
  pub wire : after.wire ≡ c.wire
  pub context : after.context ≡ c.context
  pub reads : after.reads ≡ c.reads
  pub is_open : after.is_open ≡ c.is_open

pub write_all_lem {ℓ} :
    {σ : Type ℓ} (msgs : List (List ℕ)) (c : Connection σ) → AreShort msgs → Written msgs c
unfolding async_write
write_all_lem [] c s = record {
  after = c;
  done = refl;
  writes = sym (append-nil c.writes);
  write_buffer = refl;
  wire = refl;
  context = refl;
  reads = refl;
  is_open = refl;
}
write_all_lem (msg ∷ msgs) c (le, s) =
    let d = record c {
      write_buffer = copy_in c.write_buffer 0 msg;
      writes = c.writes ++ (length msg ∷ []);
    } in
    let fits : leb (length msg) max_msg ≡ true = ground arith in
    let w = write_all_lem msgs d s in
    record {
      after = w.after;
      done = rw fits w.done;
      writes = w.writes ∙ append_assoc c.writes (length msg ∷ []) (map length msgs);
      write_buffer = w.write_buffer;
      wire = w.wire;
      context = w.context;
      reads = w.reads;
      is_open = w.is_open;
    }
