-- ===== src/Iobuf/Valid.antt =====
-- httpserver/iobuf.cc: the invariant of a buffer, and the bytes that it holds.
use cclab.Base.{
  ℕ, ◌+◌, ◌<◌, ◌≤◌, ◌≡◌, refl, sym, ◌∙◌, ap, true, false, List, [], ◌∷◌, ◌++◌, length,
  length-append, append_assoc, arith,
}
use cclab.Base.Bytes.{length-copy_out}
use cclab.Base.Pointers.{Ptr, has, Distinct}
use cclab.Base.Ring.{Seg}
use cclab.Iobuf.Heap.{Heap, word, block_capacity}
use cclab.Iobuf.Blocks.{Iobuf}
use cclab.Iobuf.Scan.{block_bytes}

-- The bytes of the blocks, in their order.
abbrev pub bytes : Heap → List Ptr → List ℕ
bytes h [] = []
bytes h (p ∷ ps) = block_bytes h p ++ bytes h ps

-- The blocks form a ring whose head is the first of them; NULL is the head of none.
abbrev pub Ring : (next prev : Ptr → Ptr) → Ptr → List Ptr → Type 0
Ring n v a [] = a ≡ 0
Ring n v a (p ∷ ps) = (a ≡ p) × Seg n v p ps p

-- A block that is there, with its memory.
pub record IsBlock (h : Heap) (p : Ptr) : Type 0 where
  pub live : h.live p ≡ true
  pub held : h.held (h.buffer p) ≡ true
  pub given : p < h.top
  pub memory : h.buffer p < h.top
  pub sized : h.cap p ≡ block_capacity
  pub fits : h.start p + h.len p ≤ block_capacity

-- The buffer holds the blocks `ps`, no two of which share memory, and counts their bytes.
pub record IsValid (io : Iobuf) (h : Heap) (ps : List Ptr) : Type 0 where
  pub ring : Ring h.next h.prev io.head ps
  pub distinct : Distinct ps
  pub not_null : has 0 ps ≡ false
  pub blocks : (p : Ptr) → has p ps ≡ true → IsBlock h p
  pub own : (p q : Ptr) → has p ps ≡ true → has q ps ≡ true → h.buffer p ≡ h.buffer q → p ≡ q
  pub counted : io.total ≡ length (bytes h ps)
  pub small : length (bytes h ps) < word
  pub positive : 0 < h.top

pub length-block_bytes : (h : Heap) (p : Ptr) → length (block_bytes h p) ≡ h.len p
length-block_bytes h p = length-copy_out (h.content (h.buffer p)) (h.start p) (h.len p)

pub bytes-append : (h : Heap) (ps qs : List Ptr) → bytes h (ps ++ qs) ≡ bytes h ps ++ bytes h qs
bytes-append h [] qs = refl
bytes-append h (p ∷ ps) qs =
    ap (λ l. block_bytes h p ++ l) (bytes-append h ps qs)
    ∙ sym (append_assoc (block_bytes h p) (bytes h ps) (bytes h qs))

pub bytes-eq :
    (h h' : Heap) (ps : List Ptr)
    → ((p : Ptr) → has p ps ≡ true → block_bytes h' p ≡ block_bytes h p)
    → bytes h' ps ≡ bytes h ps
bytes-eq h h' [] same = refl
bytes-eq h h' (p ∷ ps) same =
    rw (same p (ground arith), bytes-eq h h' ps λ q m. same q (ground arith))

-- `length-bytes` of a list with a first block.
pub length-bytes :
    (h : Heap) (p : Ptr) (ps : List Ptr) → length (bytes h (p ∷ ps)) ≡ h.len p + length (bytes h ps)
length-bytes h p ps =
    omega (arith, length-append (block_bytes h p) (bytes h ps), length-block_bytes h p)

-- A heap that differs in its links alone.
abbrev pub relinked : Heap → (next prev : Ptr → Ptr) → Heap
relinked h n v = record h { next = n; prev = v }

pub IsBlock-relinked :
    {h : Heap} {p : Ptr} (n v : Ptr → Ptr) → IsBlock h p → IsBlock (relinked h n v) p
IsBlock-relinked n v b = record {
  live = b.live;
  held = b.held;
  given = b.given;
  memory = b.memory;
  sized = b.sized;
  fits = b.fits;
}
