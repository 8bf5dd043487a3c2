-- ===== src/Http/Serve.antt =====
-- httpserver/http_server.cc, httpserver/tcp_server.cc: a connection of `HttpServer` with its context, its
-- buffer and the parser.
use cclab.Base.Pointers.{Ptr}
use cclab.Iobuf.Heap.{word}
use cclab.Iobuf.Room.{room_behind}
use cclab.Base.{
  ℕ, suc, ◌+◌, drop, ◌<◌, ◌≤◌, ◌≡◌, refl, some, List, [], ◌∷◌, ◌++◌, map, length, arith,
}
use cclab.Base.Bytes.{copy_in, copy_out-copy_in}
use cclab.Iobuf.Valid.{bytes, IsValid}
use cclab.Http.Parse.{parse_refines, room_behind_empty}
use cclab.Http.Answer.{Call, Parser, call_all, answers, HttpContext, execute_calls, parse_message}
use cclab.Tcp.Connection.{Connection, set_context, on_read}
use cclab.Tcp.Server.{http_server, received}
use cclab.Tcp.Writes.{AreShort}
use cclab.Tcp.Waiting.{written_over, write_all_lem}

on_complete-AreShort : (calls : List Call) → AreShort (answers calls)
on_complete-AreShort [] = tt
on_complete-AreShort (Call.message_complete ∷ calls) = (omega arith, on_complete-AreShort calls)
on_complete-AreShort (Call.message_begin r ∷ calls) = on_complete-AreShort calls
on_complete-AreShort (Call.headers_complete r ∷ calls) = on_complete-AreShort calls
on_complete-AreShort (Call.url at ∷ calls) = on_complete-AreShort calls
on_complete-AreShort (Call.status at ∷ calls) = on_complete-AreShort calls
on_complete-AreShort (Call.header_field at ∷ calls) = on_complete-AreShort calls
on_complete-AreShort (Call.header_value at ∷ calls) = on_complete-AreShort calls
on_complete-AreShort (Call.body at ∷ calls) = on_complete-AreShort calls

-- The calls that the parser makes of a message.
abbrev pub calls_of {ℓ} : {P : Type ℓ} → Parser P → List ℕ → P → List Call
calls_of parser msg p = (parser.execute parser.init msg p).1

module _ {ℓ} {P : Type ℓ} (parser : Parser P) where
  -- What `Parse` leaves of a message: the callbacks' work, and in the buffer what the parser has not parsed.
  record Handled (fuel : ℕ) (msg : List ℕ) (s : HttpContext P) (ps : List Ptr) : Type ℓ where
    after : HttpContext P
    blocks : List Ptr
    done :
        parse_message parser fuel msg (length msg) s
        ≡ some (after, answers (calls_of parser msg s.http_parser))
    fields : after.fields ≡ call_all (calls_of parser msg s.http_parser) s.fields
    http_parser : after.http_parser ≡ (parser.execute parser.init msg s.http_parser).0
    valid : IsValid after.input_buffer after.heap blocks
    held :
        bytes after.heap blocks
        ≡ drop (parser.execute parser.init msg s.http_parser).2 (bytes s.heap ps ++ msg)

  parse_message_lem :
      (fuel : ℕ) (msg : List ℕ) (s : HttpContext P) (ps : List Ptr)
      → IsValid s.input_buffer s.heap ps
      → length (bytes s.heap ps) + length msg < word
      → length msg ≤ room_behind s.input_buffer s.heap
      → length ps + 1 < fuel
      → Handled fuel msg s ps
  unfolding parse_message
  parse_message_lem fuel msg s ps v small fits lt =
      let x =
        parse_refines (execute_calls parser) fuel msg (s.http_parser, s.fields, []) s.input_buffer
          s.heap ps v small fits lt in
      record {
        after = record {
          http_parser = (parser.execute parser.init msg s.http_parser).0;
          fields = call_all (calls_of parser msg s.http_parser) s.fields;
          input_buffer = x.io;
          heap = x.heap;
        };
        blocks = x.blocks;
        done = rw x.done refl;
        fields = refl;
        http_parser = refl;
        valid = x.valid;
        held = x.left;
      }

  -- What a connection is after a message has been read.
  pub record Served (start : HttpContext P) (fuel : ℕ) (msg : List ℕ) (left : ℕ)
      (c : Connection (HttpContext P)) (s : HttpContext P) (ps : List Ptr) : Type ℓ where
    pub after : Connection (HttpContext P)
    pub context : HttpContext P
    pub blocks : List Ptr
    pub done : received (http_server start (parse_message parser fuel)) msg left c ≡ some after
    pub stored : after.context ≡ some context
    pub fields : context.fields ≡ call_all (calls_of parser msg s.http_parser) s.fields
    pub http_parser : context.http_parser ≡ (parser.execute parser.init msg s.http_parser).0
    pub valid : IsValid context.input_buffer context.heap blocks
    pub held :
        bytes context.heap blocks
        ≡ drop (parser.execute parser.init msg s.http_parser).2 (bytes s.heap ps ++ msg)
    pub writes : after.writes ≡ c.writes ++ map length (answers (calls_of parser msg s.http_parser))
    pub write_buffer :
        after.write_buffer
        ≡ written_over c.write_buffer (answers (calls_of parser msg s.http_parser))
    pub wire : after.wire ≡ c.wire
    pub reads : after.reads ≡ left

  -- Whatever the parser does, on two rounds more than the buffer of its context has blocks, a connection of
  -- `HttpServer` that reads a message that fits behind what this buffer, which is valid, holds, makes the
  -- parser's calls on its context in their order, keeps of the buffer's bytes and the message those behind as many as
  -- the parser has parsed, and has an answer waiting for each request that the parser has completed.
  pub received_refines :
      (start : HttpContext P) (fuel : ℕ) (msg : List ℕ) (left : ℕ) (c : Connection (HttpContext P))
      (s : HttpContext P) (ps : List Ptr)
      → c.context ≡ some s
      → IsValid s.input_buffer s.heap ps
      → length (bytes s.heap ps) + length msg < word
      → length msg ≤ room_behind s.input_buffer s.heap
      → length ps + 1 < fuel
      → Served start fuel msg left c s ps
  unfolding on_read
  received_refines start fuel msg left c s ps e v small fits lt =
      let x = parse_message_lem fuel msg s ps v small fits lt in
      let d = record c { reads = left; read_buffer = copy_in c.read_buffer 0 msg } in
      let w =
        write_all_lem (answers (calls_of parser msg s.http_parser)) (set_context x.after d)
          (on_complete-AreShort (calls_of parser msg s.http_parser)) in
      record {
        after = w.after;
        context = x.after;
        blocks = x.blocks;
        done = rw (copy_out-copy_in c.read_buffer 0 msg, e, x.done) w.done;
        stored = w.context;
        fields = x.fields;
        http_parser = x.http_parser;
        valid = x.valid;
        held = x.held;
        writes = w.writes;
        write_buffer = w.write_buffer;
        wire = w.wire;
        reads = w.reads;
      }

  -- The first message of a connection, as one read brings it.
  pub first_received :
      (start : HttpContext P) (fuel : ℕ) (msg : List ℕ) (left : ℕ) (c : Connection (HttpContext P))
      → c.context ≡ some start
      → IsValid start.input_buffer start.heap []
      → length msg ≤ 4096
      → Served start (suc (suc fuel)) msg left c start []
  first_received start fuel msg left c e v short =
      let room = room_behind_empty start.input_buffer start.heap v in
      received_refines start (suc (suc fuel)) msg left c start [] e v (omega (arith, short))
        (omega (arith, short, room)) (omega arith)
