-- ===== src/Iobuf/Trim.antt =====
-- httpserver/iobuf.cc: `IOBuf::TrimStart` and the destructor.
use cclab.Base.{
  ℕ, zero, suc, ◌+◌, ◌-◌, ◌<◌, ◌≤◌, ◌≡◌, refl, sym, ◌∙◌, ap, ◌≢◌, inl, inr, true, false, ◌||◌, some,
  List, [], ◌∷◌, ◌==◌, ltb, leb, length, drop, drop-append, drop-append_lt, length-drop, Bool-cases,
  arith,
}
use cclab.Base.Bytes.{drop-copy_out}
use cclab.Base.Pointers.{Ptr, update, has}
use cclab.Iobuf.Heap.{Heap, sub64, unref, delete_block, block_trim_start}
use cclab.Iobuf.Blocks.{Iobuf, pop}
use cclab.Iobuf.Ops.{and_then, drop_popped, trim_start}
use cclab.Iobuf.Scan.{block_bytes}
use cclab.Iobuf.Valid.{
  bytes, IsBlock, IsValid, length-bytes, length-block_bytes, bytes-eq, relinked, IsBlock-relinked,
}
use cclab.Iobuf.Link.{pop_lem}

-- The heap without the block.
abbrev pub deleted : Ptr → Heap → Heap
deleted p h = let h' = unref p h in record h' { live = update h.live p false }

pub delete_block-deleted :
    {h : Heap} {p : Ptr} → IsBlock h p → delete_block p h ≡ some (deleted p h)
unfolding delete_block
delete_block-deleted {h} {p} b = rw (b.live, b.held) refl

pub deleted-IsBlock :
    {h : Heap} (p q : Ptr) → p ≢ q → h.buffer q ≢ h.buffer p → IsBlock h q → IsBlock (deleted p h) q
deleted-IsBlock {h} p q ne apart b = record {
  live = ground (arith, b.live);
  held = ground (arith, b.held);
  given = b.given;
  memory = b.memory;
  sized = b.sized;
  fits = b.fits;
}

pub deleted-IsValid :
    {io : Iobuf} {h : Heap} (p : Ptr) (ps : List Ptr)
    → IsValid io h ps
    → has p ps ≡ false
    → ((q : Ptr) → has q ps ≡ true → h.buffer q ≢ h.buffer p)
    → IsValid io (deleted p h) ps
deleted-IsValid {io} {h} p ps v out apart = record {
  ring = v.ring;
  distinct = v.distinct;
  not_null = v.not_null;
  blocks = λ q m. deleted-IsBlock p q (ground arith) (apart q m) (v.blocks q m);
  own = v.own;
  counted = v.counted ∙ ap length (bytes-eq (deleted p h) h ps λ q m. refl);
  small = omega (arith, v.small, ap length (bytes-eq (deleted p h) h ps λ q m. refl));
  positive = v.positive;
}

-- `Pop();` as a statement takes the first block away.
pub record Dropped (io : Iobuf) (h : Heap) (p : Ptr) (ps : List Ptr) : Type 0 where
  pub rest : Iobuf
  pub heap : Heap
  pub done : and_then (pop io h) drop_popped ≡ some (rest, heap)
  pub valid : IsValid rest heap ps
  pub same : bytes heap ps ≡ bytes h ps
  pub gone : heap.live p ≡ false
  pub fewer : (q : Ptr) → h.live q ≡ false → heap.live q ≡ false
  pub freed : (b : Ptr) → h.held b ≡ false → heap.held b ≡ false
  pub last : h.refs (h.buffer p) ≡ 1 → heap.held (h.buffer p) ≡ false
  pub refs : (b : Ptr) → b ≢ h.buffer p → heap.refs b ≡ h.refs b
  pub buffer : (q : Ptr) → heap.buffer q ≡ h.buffer q

pub drop_lem :
    (io : Iobuf) (h : Heap) (p : Ptr) (ps : List Ptr) → IsValid io h (p ∷ ps) → Dropped io h p ps
drop_lem io h p ps v =
    let d = pop_lem io h p ps v in
    let h' = relinked h d.next d.prev in
    let b : IsBlock h' p = IsBlock-relinked d.next d.prev (v.blocks p (ground arith)) in
    let some_head : (p == 0) ≡ false = ground (arith, v.not_null) in
    record {
      rest = d.rest;
      heap = deleted p h';
      done = ap (λ o. and_then o drop_popped) d.done ∙ rw (some_head, delete_block-deleted b) refl;
      valid = deleted-IsValid p ps d.valid v.distinct.0 λ q m e.
          let f : q ≡ p = v.own q p (ground arith) (ground arith) e in ground (arith, v.distinct.0);
      same = bytes-eq h (deleted p h') ps λ q m. refl;
      gone = ground arith;
      fewer = λ q e. ground arith;
      freed = λ b e. ground arith;
      last = λ e. ground arith;
      refs = λ b ne. ground arith;
      buffer = λ q. refl;
    }

-- The first bytes of the first block are trimmed.
abbrev pub trimmed : ℕ → Ptr → Heap → Heap
trimmed n p h = record h {
  start = update h.start p (h.start p + n);
  len = update h.len p (h.len p - n);
}

block_bytes-trimmed :
    (n : ℕ) (p : Ptr) (h : Heap)
    → n ≤ h.len p
    → block_bytes (trimmed n p h) p ≡ drop n (block_bytes h p)
block_bytes-trimmed n p h le =
    ground (arith, drop-copy_out (h.content (h.buffer p)) (h.start p) (h.len p) n)

-- The first block of a buffer loses its first bytes.
pub trimmed-IsValid :
    (io : Iobuf) (h : Heap) (n : ℕ) (p : Ptr) (ps : List Ptr)
    → IsValid io h (p ∷ ps)
    → n ≤ h.len p
    → IsValid (record { total = sub64 io.total n; head = p }) (trimmed n p h) (p ∷ ps)
      × (bytes (trimmed n p h) (p ∷ ps) ≡ drop n (bytes h (p ∷ ps)))
trimmed-IsValid io h n p ps v le =
    let b : IsBlock h p = v.blocks p (ground arith) in
    let rest : bytes (trimmed n p h) ps ≡ bytes h ps =
      bytes-eq h (trimmed n p h) ps
        λ q m. let e : (q == p) ≡ false = ground (arith, v.distinct.0) in rw e refl in
    let all : bytes (trimmed n p h) (p ∷ ps) ≡ drop n (bytes h (p ∷ ps)) =
      rw (rest, block_bytes-trimmed n p h le)
        (sym (
          drop-append_lt n (block_bytes h p) (bytes h ps)
            (omega (arith, length-block_bytes h p)))) in
    let size : length (bytes (trimmed n p h) (p ∷ ps)) ≡ length (bytes h (p ∷ ps)) - n =
      ap length all ∙ length-drop n (bytes h (p ∷ ps)) in
    (
      record {
        ring = (refl, v.ring.1);
        distinct = v.distinct;
        not_null = v.not_null;
        blocks = λ q m.
            let c = v.blocks q m in
            record {
              live = c.live;
              held = c.held;
              given = c.given;
              memory = c.memory;
              sized = c.sized;
              fits = ground (arith, c.fits, b.fits);
            };
        own = v.own;
        counted = omega (arith, v.counted, v.small, size, length-bytes h p ps);
        small = omega (arith, v.small, size);
        positive = v.positive;
      },
      all,
    )

-- On enough rounds, `TrimStart` of a valid buffer ends without a fault and leaves a valid buffer,
-- which holds the bytes behind the first `amount`.
pub trim_start_refines :
    (fuel amount : ℕ) (io : Iobuf) (h : Heap) (ps : List Ptr)
    → IsValid io h ps
    → length ps < fuel
    → (io' : Iobuf) × (h' : Heap) × (ps' : List Ptr) × (trim_start fuel amount io h
        ≡ some (io', h'))
      × IsValid io' h' ps'
      × (bytes h' ps' ≡ drop amount (bytes h ps))
unfolding trim_start block_trim_start
trim_start_refines zero amount io h ps v lt = absurd (omega arith)
trim_start_refines (suc fuel) zero io h ps v lt = (io, h, ps, refl, v, refl)
trim_start_refines (suc fuel) (suc k) io h [] v lt =
    let stop : (suc k == 0 || io.head == 0) ≡ true = ground (arith, v.ring) in
    (io, h, [], rw stop refl, v, refl)
trim_start_refines (suc fuel) (suc k) io h (p ∷ ps) v lt =
    let b : IsBlock h p = v.blocks p (ground arith) in
    let go_on : (suc k == 0 || p == 0) ≡ false = ground (arith, v.not_null) in
    elim (Bool-cases (ltb (suc k) (h.len p))) [
      | inl y ↦
          let fits : leb (suc k) (h.len p) ≡ true = ground arith in
          let (w, same) = trimmed-IsValid io h (suc k) p ps v (ground arith) in
          (
            record { total = sub64 io.total (suc k); head = p },
            trimmed (suc k) p h,
            p ∷ ps,
            rw (v.ring.0, go_on, b.live, y, fits) refl,
            w,
            same,
          )
      | inr z ↦
          let d = drop_lem io h p ps v in
          let step : trim_start (suc fuel) (suc k) io h
              ≡ and_then (and_then (pop io h) drop_popped)
                  (λ (i, g). trim_start fuel (suc k - h.len p) i g) =
            rw (v.ring.0, go_on, b.live, z) refl in
          let (io', h', ps', run, w, same) =
            trim_start_refines fuel (suc k - h.len p) d.rest d.heap ps d.valid
              (omega (arith, lt)) in
          (
            io',
            h',
            ps',
            step
                ∙ ap (λ o. and_then o (λ (i, g). trim_start fuel (suc k - h.len p) i g)) d.done
                ∙ run,
            w,
            same
                ∙ ap (drop (suc k - h.len p)) d.same
                ∙ ap (λ n. drop (suc k - n) (bytes h ps)) (sym (length-block_bytes h p))
                ∙ sym (
                    drop-append (suc k) (block_bytes h p) (bytes h ps)
                      (ground (arith, length-block_bytes h p))),
          )
    ]

-- A block is trimmed away with its last byte.
pub trim_start_all :
    (fuel n : ℕ) (io : Iobuf) (h : Heap) (p : Ptr)
    → IsValid io h (p ∷ [])
    → 0 < n
    → n ≡ h.len p
    → (io' : Iobuf) × (h' : Heap) × (trim_start (suc (suc fuel)) n io h ≡ some (io', h'))
      × IsValid io' h' []
unfolding trim_start
trim_start_all fuel n io h p v some_bytes e =
    let b : IsBlock h p = v.blocks p (ground arith) in
    let d = drop_lem io h p [] v in
    let go_on : (n == 0 || io.head == 0) ≡ false = ground (arith, v.ring, v.not_null, some_bytes) in
    let live : h.live io.head ≡ true = ap h.live v.ring.0 ∙ b.live in
    let size : h.len io.head ≡ h.len p = ap h.len v.ring.0 in
    let no_more : ltb n (h.len io.head) ≡ false = ground (arith, e, size) in
    let rest : (n - h.len io.head == 0 || d.rest.head == 0) ≡ true = ground (arith, e, size) in
    (d.rest, d.heap, rw (go_on, live, no_more, d.done, rest) refl, d.valid)
