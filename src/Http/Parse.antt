-- ===== src/Http/Parse.antt =====
-- httpserver/http_server.cc: `HttpContext::Parse`, which puts a message into the buffer and hands it to the
-- parser. The parser is a parameter: `execute` takes the bytes and gives how many of them it has parsed.
use mathlib.Core.Path.{subst}
use cclab.Base.{
  ℕ, zero, suc, ◌+◌, ◌<◌, ◌≤◌, ◌≡◌, refl, ◌∙◌, ap, true, false, Option, some, List, [], ◌∷◌, ◌++◌,
  ◌==◌, if◌then◌else◌, ltb, length, length-append, arith, take, take_all, drop,
}
use cclab.Base.Bytes.{copy_out}
use cclab.Base.Pointers.{Ptr}
use cclab.Iobuf.Heap.{Heap, word, block_capacity}
use cclab.Iobuf.Blocks.{Iobuf, State, Region, pre_allocate, post_allocate}
use cclab.Iobuf.Ops.{and_then, write_at, trim_start}
use cclab.Iobuf.Valid.{bytes, IsValid}
use cclab.Iobuf.Link.{length-snoc}
use cclab.Iobuf.Room.{Room, room_behind, pre_allocate_lem}
use cclab.Iobuf.Fill.{written, written_lem, Posted, post_lem}
use cclab.Iobuf.Trim.{trim_start_refines, trim_start_all}

module _ {ℓ} {σ : Type ℓ} (execute : List ℕ → σ → σ × ℕ) where
  -- From the second statement on, with the memory that `PreAllocate` has given.
  abbrev pub parse_in : ℕ → List ℕ → ℕ → σ → Region × State → Option (σ × State)
  parse_in fuel msg n s ((b, base, room), (io, h)) =
      let h' = write_at b base (take n msg) h in
      if ltb room n
      then some (s, (io, h))
      else and_then (post_allocate n io h') (λ (io', h'').
        let (s', nparsed) = execute (copy_out (h''.content b) base n) s in
        and_then (trim_start fuel nparsed io' h'') (λ t. some (s', t)))

  unfoldable pub parse : ℕ → List ℕ → ℕ → σ → Iobuf → Heap → Option (σ × State)
  parse fuel msg n s io h = and_then (pre_allocate io h) (parse_in fuel msg n s)

  -- The messages of a connection, as `HttpServer::OnMessage` gets them.
  abbrev pub parse_all : ℕ → List (List ℕ) → σ → Iobuf → Heap → Option (σ × State)
  parse_all fuel [] s io h = some (s, (io, h))
  parse_all fuel (msg ∷ msgs) s io h =
      and_then (parse fuel msg (length msg) s io h)
        (λ (s', (io', h')). parse_all fuel msgs s' io' h')

  abbrev pub execute_all : List (List ℕ) → σ → σ
  execute_all [] s = s
  execute_all (msg ∷ msgs) s = let (s', n) = execute msg s in execute_all msgs s'

-- The parser parses each message whole, in the state in which it finds it: no error stands in them.
abbrev pub AreParsed {ℓ} : {σ : Type ℓ} → (List ℕ → σ → σ × ℕ) → List (List ℕ) → σ → Type 0
AreParsed execute [] s = Unit
AreParsed execute (msg ∷ msgs) s =
    ((execute msg s).1 ≡ length msg) × AreParsed execute msgs (execute msg s).0

-- Messages as `async_read_some` gives them: not empty, and no longer than its buffer.
abbrev pub AreRead : List (List ℕ) → Type 0
AreRead [] = Unit
AreRead (msg ∷ msgs) = (0 < length msg) × (length msg ≤ 4096) × AreRead msgs

-- What a parser that has read `msg` leaves: its state, and a valid buffer without as many bytes from its
-- first on as the parser has parsed.
pub record Parsed {ℓ} {σ : Type ℓ} (o : Option (σ × State)) (answer : σ × ℕ) (held : List ℕ)
    : Type ℓ where
  pub io : Iobuf
  pub heap : Heap
  pub blocks : List Ptr
  pub done : o ≡ some (answer.0, (io, heap))
  pub valid : IsValid io heap blocks
  pub left : bytes heap blocks ≡ drop answer.1 held

module _ {ℓ} {σ : Type ℓ} (execute : List ℕ → σ → σ × ℕ) where
  parse_in-run :
      (fuel : ℕ) (msg : List ℕ) (s : σ) (io : Iobuf) (h : Heap) (ps : List Ptr) (x : Room io h ps)
      → (p : Posted io h ps x msg) → length msg ≤ x.room
      → (t : State) → trim_start fuel (execute msg s).1 p.whole (written msg x.rear x.heap) ≡ some t
      → parse_in execute fuel msg (length msg) s (
        (x.heap.buffer x.rear, x.heap.start x.rear + x.heap.len x.rear, x.room),
        (x.whole, x.heap),
      )
        ≡ some ((execute msg s).0, t)
  parse_in-run fuel msg s io h ps x p le t run =
      let all : take (length msg) msg ≡ msg = take_all (length msg) msg (omega arith) in
      let fits : ltb x.room (length msg) ≡ false = ground arith in
      rw (fits, all, p.done, written_lem msg x.rear x.heap, run) refl

  parse-Room :
      (fuel : ℕ) (msg : List ℕ) (s : σ) (io : Iobuf) (h : Heap) (ps : List Ptr) (x : Room io h ps)
      → Posted io h ps x msg
      → length msg ≤ x.room
      → length ps + 1 < fuel
      → Parsed (parse execute fuel msg (length msg) s io h) (execute msg s) (bytes h ps ++ msg)
  unfolding parse
  parse-Room fuel msg s io h ps x p le lt =
      let n = (execute msg s).1 in
      let (io', h', ps', run, valid, left) =
        trim_start_refines fuel n p.whole (written msg x.rear x.heap) (x.front ++ (x.rear ∷ []))
          p.valid (omega (arith, x.few, lt, length-append x.front (x.rear ∷ []))) in
      record {
        io = io';
        heap = h';
        blocks = ps';
        done =
            ap (λ o. and_then o (parse_in execute fuel msg (length msg) s)) x.done
            ∙ parse_in-run fuel msg s io h ps x p le (io', h') run;
        valid = valid;
        left = left ∙ ap (drop n) p.same;
      }

  -- On two rounds more than a valid buffer has blocks, a message that fits behind what it holds reaches the
  -- parser whole, and the buffer, valid again, loses as many bytes from its first on as the parser has
  -- parsed.
  pub parse_refines :
      (fuel : ℕ) (msg : List ℕ) (s : σ) (io : Iobuf) (h : Heap) (ps : List Ptr)
      → IsValid io h ps
      → length (bytes h ps) + length msg < word
      → length msg ≤ room_behind io h
      → length ps + 1 < fuel
      → Parsed (parse execute fuel msg (length msg) s io h) (execute msg s) (bytes h ps ++ msg)
  parse_refines fuel msg s io h ps v small fits lt =
      let x : Room io h ps = pre_allocate_lem io h ps v in
      let le : length msg ≤ x.room = omega (arith, fits, x.amount) in
      parse-Room fuel msg s io h ps x (post_lem io h ps x msg le small) le lt

  -- A message that does not fit is lost: the parser does not see it, and the buffer holds the same bytes.
  pub parse-Lost :
      (fuel : ℕ) (msg : List ℕ) (s : σ) (io : Iobuf) (h : Heap) (ps : List Ptr)
      → IsValid io h ps
      → room_behind io h < length msg
      → Parsed (parse execute fuel msg (length msg) s io h) (s, 0) (bytes h ps)
  unfolding parse
  parse-Lost fuel msg s io h ps v lack =
      let x : Room io h ps = pre_allocate_lem io h ps v in
      let short : ltb x.room (length msg) ≡ true = ground (arith, lack, x.amount) in
      record {
        io = x.whole;
        heap = x.heap;
        blocks = x.front ++ (x.rear ∷ []);
        done =
            ap (λ o. and_then o (parse_in execute fuel msg (length msg) s)) x.done ∙ rw short refl;
        valid = x.valid;
        left = x.same;
      }

-- A whole new block stands behind a buffer without blocks.
pub room_behind_empty :
    (io : Iobuf) (h : Heap) → IsValid io h [] → room_behind io h ≡ block_capacity
room_behind_empty io h v =
    let empty_head : (io.head == 0) ≡ true = ground (arith, v.ring) in rw empty_head refl

module _ {ℓ} {σ : Type ℓ} (execute : List ℕ → σ → σ × ℕ) where
  length-zero : (ps : List Ptr) → length ps ≤ 0 → ps ≡ []
  length-zero [] le = refl
  length-zero (p ∷ ps) le = absurd (omega arith)

  pub parse_one :
      (fuel : ℕ) (msg : List ℕ) (s : σ) (io : Iobuf) (h : Heap)
      → IsValid io h []
      → 0 < length msg
      → length msg ≤ 4096
      → (execute msg s).1 ≡ length msg
      → (io' : Iobuf) × (h' : Heap) × (parse execute (suc (suc fuel)) msg (length msg) s io h
          ≡ some ((execute msg s).0, (io', h')))
        × IsValid io' h' []
  unfolding parse
  parse_one fuel msg s io h v some_bytes short all =
      let x : Room io h [] = pre_allocate_lem io h [] v in
      let room : room_behind io h ≡ block_capacity = room_behind_empty io h v in
      let le : length msg ≤ x.room = omega (arith, short, room, x.amount) in
      let p : Posted io h [] x msg = post_lem io h [] x msg le (omega (arith, short)) in
      let alone : x.front ≡ [] = length-zero x.front x.few in
      let g = written msg x.rear x.heap in
      let none_before : length (bytes g x.front) ≡ 0 = ap (λ l. length (bytes g l)) alone in
      let w : IsValid p.whole (written msg x.rear x.heap) (x.rear ∷ []) =
        subst (λ l. IsValid p.whole (written msg x.rear x.heap) (l ++ (x.rear ∷ []))) alone
          p.valid in
      let (io', h', run, v') =
        trim_start_all fuel (execute msg s).1 p.whole (written msg x.rear x.heap) x.rear w
          (omega (arith, some_bytes, all))
          (omega (
            arith,
            all,
            none_before,
            length-snoc g x.rear x.front,
            ap length p.same,
            length-append (bytes h []) msg,
          )) in
      (
        io',
        h',
        ap (λ o. and_then o (parse_in execute (suc (suc fuel)) msg (length msg) s)) x.done
            ∙ parse_in-run execute (suc (suc fuel)) msg s io h [] x p le (io', h') run,
        v',
      )

  -- On two rounds or more, the parser sees every message of a connection, none empty, none longer than 4096
  -- bytes, and each parsed whole in the state in which it finds the parser, whole and in its order.
  -- The buffer, valid and without blocks before, is so after them.
  pub parse_all_refines :
      (fuel : ℕ) (msgs : List (List ℕ)) (s : σ) (io : Iobuf) (h : Heap)
      → IsValid io h []
      → AreRead msgs
      → AreParsed execute msgs s
      → 1 < fuel
      → (io' : Iobuf) × (h' : Heap) × (parse_all execute fuel msgs s io h
          ≡ some (execute_all execute msgs s, (io', h')))
        × IsValid io' h' []
  parse_all_refines fuel [] s io h v r q lt = (io, h, refl, v)
  parse_all_refines zero (msg ∷ msgs) s io h v r q lt = absurd (omega arith)
  parse_all_refines (suc zero) (msg ∷ msgs) s io h v r q lt = absurd (omega arith)
  parse_all_refines (suc (suc fuel)) (msg ∷ msgs) s io h v (some_bytes, short, r) (all, q) lt =
      let (io₁, h₁, run, w) = parse_one fuel msg s io h v some_bytes short all in
      let (io', h', runs, w') =
        parse_all_refines (suc (suc fuel)) msgs (execute msg s).0 io₁ h₁ w r q lt in
      (
        io',
        h',
        ap (λ o. and_then o (λ (s', (io', h')). parse_all execute (suc (suc fuel)) msgs s' io' h'))
              run
            ∙ runs,
        w',
      )
