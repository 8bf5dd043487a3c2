-- ===== src/Iobuf/Share.antt =====
-- httpserver/iobuf.cc: the memory that `IOBuf::Split` leaves to both buffers.
use cclab.Base.{
  ℕ, suc, ◌+◌, ◌<◌, ◌≤◌, ◌≡◌, refl, ◌∙◌, ap, true, false, ◌||◌, some, List, ◌∷◌, ◌%◌, ◌==◌, leb,
  arith,
}
use cclab.Base.Pointers.{Ptr}
use cclab.Iobuf.Heap.{Heap, word, sub64, clone, space}
use cclab.Iobuf.Blocks.{Iobuf, empty, append_block}
use cclab.Iobuf.Ops.{split_head, split_loop, split}
use cclab.Iobuf.Scan.{tail_pointer}
use cclab.Iobuf.Valid.{IsBlock, IsValid}
use cclab.Iobuf.Trim.{trimmed}
use cclab.Iobuf.Cut.{cut, trim_end-cut, trim_start-trimmed, Agrees-cut}

-- A block goes alone into the empty buffer.
append_block-empty :
    (b : Ptr) (h : Heap)
    → append_block b empty h ≡ some (record { total = (0 + h.len b) % word; head = b }, h)
unfolding append_block
append_block-empty b h = refl

-- The first bytes of the first block alone.
split_head-empty :
    (n : ℕ) (io : Iobuf) (h : Heap) (p : Ptr)
    → io.head ≡ p
    → h.live p ≡ true
    → p < h.top
    → n ≤ h.len p
    → split_head n empty io h
      ≡ some (
        record { total = (0 + (cut n p h).len h.top) % word; head = h.top },
        (record { total = sub64 io.total n; head = p }, trimmed n p (cut n p h)),
      )
split_head-empty n io h p first live given le =
    let a = Agrees-cut n p p h given in
    rw (first, trim_end-cut n p h, append_block-empty h.top (cut n p h))
      (rw (trim_start-trimmed n p (cut n p h) (a.live ∙ live) (omega (arith, le, a.len))) refl)

-- The clone and the trimmed block in their common memory.
trimmed-Shares :
    (n : ℕ) (p : Ptr) (h : Heap) (total : ℕ)
    → IsBlock h p
    → n < h.len p
    → (tail_pointer (record { total = total; head = h.top }) (trimmed n p (cut n p h))
        ≡ some ((trimmed n p (cut n p h)).buffer p, (trimmed n p (cut n p h)).start p))
      × (0 < (trimmed n p (cut n p h)).len p)
      × (0 < space h.top (trimmed n p (cut n p h)))
unfolding tail_pointer clone
trimmed-Shares n p h total b inside =
    let given : p < h.top = b.given in
    let self : (h.top == h.top) ≡ true = ground arith in
    let self' : (p == p) ≡ true = ground arith in
    let other : (h.top == p) ≡ false = ground (arith, given) in
    let other' : (p == h.top) ≡ false = ground (arith, given) in
    let some_block : (h.top == 0) ≡ false = ground (arith, given) in
    (
      rw (some_block, self, other, self', other')
          (rw self (ap (λ i. some (h.buffer p, h.start p + i)) (omega (arith, inside)))),
      rw (self', other') (omega (arith, inside)),
      rw (self, other) (omega (arith, inside, b.fits, b.sized)),
    )

-- Where `Split` cuts a block in two, the part split off and the rest point into the same memory: the
-- part takes the place of the rest's first byte for free space behind its own bytes.
pub split-Shares :
    (fuel n : ℕ) (io : Iobuf) (h : Heap) (p : Ptr) (ps : List Ptr)
    → IsValid io h (p ∷ ps)
    → 0 < n
    → n < h.len p
    → (part rest : Iobuf) × (h' : Heap) × (split (suc fuel) n io h ≡ some (part, (rest, h')))
      × (tail_pointer part h' ≡ some (h'.buffer rest.head, h'.start rest.head))
      × (0 < h'.len rest.head)
      × (0 < space part.head h')
unfolding split split_loop
split-Shares fuel n io h p ps v some_bytes inside =
    let b : IsBlock h p = v.blocks p (ground arith) in
    let go_on : (n == 0 || io.head == 0) ≡ false = ground (arith, v.ring, v.not_null) in
    let live : h.live io.head ≡ true = ap h.live v.ring.0 ∙ b.live in
    let more : leb (h.len io.head) n ≡ false = ground (arith, ap h.len v.ring.0) in
    let x = trimmed-Shares n p h ((0 + (cut n p h).len h.top) % word) b inside in
    (
      record { total = (0 + (cut n p h).len h.top) % word; head = h.top },
      record { total = sub64 io.total n; head = p },
      trimmed n p (cut n p h),
      rw (go_on, live, more)
          (split_head-empty n io h p v.ring.0 b.live b.given (omega (arith, inside))),
      x.0,
      x.1,
      x.2,
    )
