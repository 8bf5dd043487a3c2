-- ===== src/Iobuf/Fill.antt =====
-- httpserver/iobuf.cc: `IOBuf::PostAllocate`, and a round of `IOBuf::Append` of bytes.
use Prim.Native.Nat.{min}
use cclab.Base.{
  ℕ, ◌+◌, ◌%◌, ◌<◌, ◌≤◌, ◌≡◌, refl, sym, ◌∙◌, ap, ◌≢◌, inl, true, false, some, List, [], ◌∷◌, ◌++◌,
  ◌==◌, leb, length, length-append, append_assoc, append-nil, arith, take, length-take,
}
use cclab.Base.Bytes.{copy_in, copy_out, copy_out-add, copy_out-copy_in, copy_out-copy_in_apart}
use cclab.Base.Pointers.{Ptr, update, has, has-append, Distinct-parts}
use cclab.Iobuf.Heap.{Heap, word, sub64, block_capacity, block_append}
use cclab.Iobuf.Blocks.{Iobuf, State, pre_allocate, post_allocate}
use cclab.Iobuf.Ops.{and_then, write_at, fill}
use cclab.Iobuf.Scan.{block_bytes}
use cclab.Iobuf.Valid.{bytes, Ring, IsBlock, IsValid, bytes-append, bytes-eq}
use cclab.Iobuf.Room.{Room, room_behind, pre_allocate_lem, Ring-rear}

-- The bytes `xs` behind those of the block `r`
abbrev pub written : List ℕ → Ptr → Heap → Heap
written xs r h =
    let g = write_at (h.buffer r) (h.start r + h.len r) xs h in
    record g { len = update h.len r (h.len r + length xs) }

block_bytes-written :
    (xs : List ℕ) (r : Ptr) (h : Heap) → block_bytes (written xs r h) r ≡ block_bytes h r ++ xs
block_bytes-written xs r h =
    let m = h.content (h.buffer r) in
    let m' = copy_in m (h.start r + h.len r) xs in
    let e : block_bytes (written xs r h) r ≡ copy_out m' (h.start r) (h.len r + length xs) =
      ground arith in
    rw (
      e,
      copy_out-add m' (h.start r) (h.len r) (length xs),
      copy_out-copy_in m (h.start r + h.len r) xs,
      copy_out-copy_in_apart m (h.start r + h.len r) xs (h.start r) (h.len r) (inl (omega arith)),
    )

-- What a rear block holds grows by the bytes that are written behind it.
pub written-IsValid :
    (io : Iobuf) (h : Heap) (ps : List Ptr) (r : Ptr) (xs : List ℕ)
    → IsValid io h (ps ++ (r ∷ []))
    → h.start r + h.len r + length xs ≤ block_capacity
    → length (bytes h (ps ++ (r ∷ []))) + length xs < word
    → IsValid
        (record io { total = (io.total + length xs) % word })
        (written xs r h)
        (ps ++ (r ∷ []))
      × (bytes (written xs r h) (ps ++ (r ∷ [])) ≡ bytes h (ps ++ (r ∷ [])) ++ xs)
written-IsValid io h ps r xs v le small =
    let rear : has r (ps ++ (r ∷ [])) ≡ true = ground (arith, has-append r ps (r ∷ [])) in
    let apart : (q : Ptr) → has q ps ≡ true → (q ≢ r) × (h.buffer q ≢ h.buffer r) = λ q m.
      let i : has q (ps ++ (r ∷ [])) ≡ true = ground (arith, has-append q ps (r ∷ [])) in
      let ne : q ≢ r = λ e.
        let f : has r ps ≡ true = ap (λ t. has t ps) (sym e) ∙ m in
        let (dx, dy, out) = Distinct-parts ps (r ∷ []) v.distinct in ground (arith, out r f) in
      (ne, λ e. ne (v.own q r i rear e)) in
    let before : bytes (written xs r h) ps ≡ bytes h ps = bytes-eq h (written xs r h) ps λ q m.
      let (e, f) = apart q m in
      let e' : (q == r) ≡ false = ground arith in
      let f' : (h.buffer q == h.buffer r) ≡ false = ground arith in rw (e', f') refl in
    let all : bytes (written xs r h) (ps ++ (r ∷ [])) ≡ bytes h (ps ++ (r ∷ [])) ++ xs = rw (
      bytes-append (written xs r h) ps (r ∷ []),
      bytes-append h ps (r ∷ []),
      before,
      block_bytes-written xs r h,
      append-nil (block_bytes h r ++ xs),
      append-nil (block_bytes h r),
      append_assoc (bytes h ps) (block_bytes h r) xs,
    ) in
    let size : length (bytes (written xs r h) (ps ++ (r ∷ [])))
        ≡ length (bytes h (ps ++ (r ∷ []))) + length xs =
      ap length all ∙ length-append (bytes h (ps ++ (r ∷ []))) xs in
    (
      record {
        ring = v.ring;
        distinct = v.distinct;
        not_null = v.not_null;
        blocks = λ q m.
            let c = v.blocks q m in
            record {
              live = c.live;
              held = c.held;
              given = c.given;
              memory = c.memory;
              sized = c.sized;
              fits = ground (arith, c.fits, le);
            };
        own = v.own;
        counted = omega (arith, v.counted, size, small);
        small = omega (arith, small, size);
        positive = v.positive;
      },
      all,
    )

pub Ring-head :
    (n v : Ptr → Ptr) (a : Ptr) (xs : List Ptr) (r : Ptr)
    → Ring n v a (xs ++ (r ∷ []))
    → has a (xs ++ (r ∷ [])) ≡ true
Ring-head n v a [] r s = ground (arith, s)
Ring-head n v a (p ∷ xs) r s = ground (arith, s)

-- What a round of `Append` of bytes leaves: the first `taken` bytes of `xs` stand behind the others.
pub record Filled (io : Iobuf) (h : Heap) (ps : List Ptr) (xs : List ℕ) : Type 0 where
  pub taken : ℕ
  pub whole : Iobuf
  pub heap : Heap
  pub blocks : List Ptr
  pub done : and_then (pre_allocate io h) (fill xs) ≡ some (taken, (whole, heap))
  pub amount : taken ≡ min (room_behind io h) (length xs)
  pub full : taken ≡ room_behind io h → room_behind whole heap ≡ block_capacity
  pub valid : IsValid whole heap blocks
  pub same : bytes heap blocks ≡ bytes h ps ++ take taken xs

-- Bytes that fit are written to the memory that `PreAllocate` has given, and counted.
pub record Posted (io : Iobuf) (h : Heap) (ps : List Ptr) (x : Room io h ps) (ys : List ℕ)
    : Type 0 where
  pub whole : Iobuf
  pub done :
      post_allocate
        (length ys)
        x.whole
        (write_at (x.heap.buffer x.rear) (x.heap.start x.rear + x.heap.len x.rear) ys x.heap)
      ≡ some (whole, written ys x.rear x.heap)
  pub valid : IsValid whole (written ys x.rear x.heap) (x.front ++ (x.rear ∷ []))
  pub same : bytes (written ys x.rear x.heap) (x.front ++ (x.rear ∷ [])) ≡ bytes h ps ++ ys
  pub full : length ys ≡ x.room → room_behind whole (written ys x.rear x.heap) ≡ block_capacity

pub post_lem :
    (io : Iobuf) (h : Heap) (ps : List Ptr) (x : Room io h ps) (ys : List ℕ)
    → length ys ≤ x.room
    → length (bytes h ps) + length ys < word
    → Posted io h ps x ys
unfolding post_allocate block_append
post_lem io h ps x ys le small =
    let (w, all) =
      written-IsValid x.whole x.heap x.front x.rear ys x.valid (omega (arith, le, x.inside))
        (omega (arith, small, ap length x.same)) in
    let m = Ring-head x.heap.next x.heap.prev x.whole.head x.front x.rear x.valid.ring in
    let at : x.heap.prev x.whole.head ≡ x.rear =
      Ring-rear x.heap.next x.heap.prev x.whole.head x.front x.rear x.valid.ring in
    let b : IsBlock x.heap x.whole.head = x.valid.blocks x.whole.head m in
    let c : IsBlock x.heap x.rear =
      x.valid.blocks x.rear (ground (arith, has-append x.rear x.front (x.rear ∷ []))) in
    let some_head : (x.whole.head == 0) ≡ false = ground (arith, x.valid.not_null) in
    let sum : (x.heap.len x.rear + length ys) % word ≡ x.heap.len x.rear + length ys =
      omega (arith, le, x.inside) in
    let fits : leb (x.heap.len x.rear + length ys) (x.heap.cap x.rear) ≡ true =
      ground (arith, le, x.inside, c.sized) in
    record {
      whole = record (x.whole) { total = (x.whole.total + length ys) % word };
      done = rw (some_head, b.live, at, c.live, sum, fits) refl;
      valid = w;
      same = all ∙ ap (λ l. l ++ ys) x.same;
      full = λ e.
          let f : sub64 (x.heap.cap x.rear) (x.heap.start x.rear + (x.heap.len x.rear + length ys))
              ≡ 0 =
            omega (arith, x.inside, e, c.sized) in
          let same : (x.rear == x.rear) ≡ true = ground arith in rw (some_head, at, same, f) refl;
    }

-- What `memcpy` has put there is what the parser reads.
pub written_lem :
    (xs : List ℕ) (r : Ptr) (h : Heap)
    → copy_out ((written xs r h).content (h.buffer r)) (h.start r + h.len r) (length xs) ≡ xs
written_lem xs r h =
    let same : (h.buffer r == h.buffer r) ≡ true = ground arith in
    rw same (copy_out-copy_in (h.content (h.buffer r)) (h.start r + h.len r) xs)

fill-Room :
    (io : Iobuf) (h : Heap) (ps : List Ptr) (xs : List ℕ)
    → length (bytes h ps) + length xs < word
    → Room io h ps
    → Filled io h ps xs
fill-Room io h ps xs small x =
    let n = min x.room (length xs) in
    let ys = take n xs in
    let size : length ys ≡ n = length-take n xs ∙ omega arith in
    let g = write_at (x.heap.buffer x.rear) (x.heap.start x.rear + x.heap.len x.rear) ys x.heap in
    let p : Posted io h ps x ys =
      post_lem io h ps x ys (omega (arith, size)) (omega (arith, size, small)) in
    record {
      taken = n;
      whole = p.whole;
      heap = written ys x.rear x.heap;
      blocks = x.front ++ (x.rear ∷ []);
      done =
          ap (λ o. and_then o (fill xs)) x.done
          ∙ ap (λ k. and_then (post_allocate k x.whole g) (λ (s : State). some (n, s))) (sym size)
          ∙ ap (λ o. and_then o (λ (s : State). some (n, s))) p.done;
      amount = ap (λ r. min r (length xs)) x.amount;
      full = λ e. p.full (omega (arith, size, x.amount, e));
      valid = p.valid;
      same = p.same;
    }

pub fill_lem :
    (io : Iobuf) (h : Heap) (ps : List Ptr) (xs : List ℕ)
    → IsValid io h ps
    → length (bytes h ps) + length xs < word
    → Filled io h ps xs
fill_lem io h ps xs v small = fill-Room io h ps xs small (pre_allocate_lem io h ps v)
