-- ===== src/Tcp/Writes.antt =====
-- httpserver/tcp_server.cc: what `AsyncWrite` puts on the wire.
use cclab.Base.{
  ℕ, ◌≤◌, ◌≡◌, refl, sym, ◌∙◌, ap, true, Option, some, List, [], ◌∷◌, ◌++◌, leb, length,
  append_assoc, append-nil, arith, take, take_all, concat,
}
use cclab.Base.Bytes.{copy_in, copy_out, copy_out-copy_in, take-copy_out}
use cclab.Iobuf.Ops.{and_then}
use cclab.Tcp.Connection.{Connection, max_msg, async_write, on_write}
use cclab.Tcp.Server.{tcp_server, sent}

abbrev pub AreShort : List (List ℕ) → Type 0
AreShort [] = Unit
AreShort (msg ∷ msgs) = (length msg ≤ max_msg) × AreShort msgs

module _ {ℓ} {σ : Type ℓ} where
  -- `AsyncWrite`, after which the socket takes the first `taken` bytes.
  abbrev pub write_taken : ℕ → List ℕ → Connection σ → Option (Connection σ)
  write_taken taken msg c = and_then (async_write msg c) (sent tcp_server taken [])

  -- Messages one at a time, each taken whole before the next is written.
  abbrev pub write_in_turn : List (List ℕ) → Connection σ → Option (Connection σ)
  write_in_turn [] c = some c
  write_in_turn (msg ∷ msgs) c = and_then (write_taken (length msg) msg c) (write_in_turn msgs)

  -- With no other write waiting, the bytes that the socket takes go out, and the others are lost: no write
  -- is left for them.
  pub write_taken_lem :
      (taken : ℕ) (msg : List ℕ) (c : Connection σ)
      → length msg ≤ max_msg
      → taken ≤ length msg
      → write_taken taken msg c
        ≡ some (record c {
          write_buffer = copy_in c.write_buffer 0 msg;
          writes = [];
          wire = c.wire ++ take taken msg;
        })
  unfolding async_write on_write
  write_taken_lem taken msg c le part =
      let fits : leb (length msg) max_msg ≡ true = ground arith in
      let read : copy_out (copy_in c.write_buffer 0 msg) 0 taken ≡ take taken msg =
        sym (take-copy_out (copy_in c.write_buffer 0 msg) 0 (length msg) taken part)
        ∙ ap (take taken) (copy_out-copy_in c.write_buffer 0 msg) in
      rw (fits, read) refl

  write_one :
      (msg : List ℕ) (c : Connection σ)
      → length msg ≤ max_msg
      → (d : Connection σ) × (write_taken (length msg) msg c ≡ some d) × (d.wire ≡ c.wire ++ msg)
  write_one msg c le = (
    record c {
      write_buffer = copy_in c.write_buffer 0 msg;
      writes = [];
      wire = c.wire ++ take (length msg) msg;
    },
    write_taken_lem (length msg) msg c le (omega arith),
    ap (λ l. c.wire ++ l) (take_all (length msg) msg (omega arith)),
  )

  -- Messages of 4096 bytes at most, each taken whole before the next is written, arrive in their order.
  pub write_in_turn_refines :
      (msgs : List (List ℕ)) (c : Connection σ)
      → AreShort msgs
      → (c' : Connection σ) × (write_in_turn msgs c ≡ some c') × (c'.wire ≡ c.wire ++ concat msgs)
  write_in_turn_refines [] c s = (c, refl, sym (append-nil c.wire))
  write_in_turn_refines (msg ∷ msgs) c (le, s) =
      let (d, one, sent_one) = write_one msg c le in
      let (c', run, wire) = write_in_turn_refines msgs d s in
      (
        c',
        ap (λ o. and_then o (write_in_turn msgs)) one ∙ run,
        wire ∙ ap (λ l. l ++ concat msgs) sent_one ∙ append_assoc c.wire msg (concat msgs),
      )
