-- ===== src/Iobuf/Blocks.antt =====
-- httpserver/iobuf.h, httpserver/iobuf.cc: the class `IOBuf`, and how it links and unlinks blocks.
use cclab.Base.{ℕ, ◌+◌, ◌%◌, not, ◌&&◌, Option, none, some, ◌==◌, if◌then◌else◌, ltb}
use cclab.Base.Pointers.{Ptr, update}
use cclab.Base.Ring.{unlink_next, unlink_prev, back_next, back_prev}
use cclab.Iobuf.Heap.{Heap, word, sub64, new_block, delete_block, block_append, space}

-- `IOBuf`: `length_`, and `head_`, which may be NULL.
pub record Iobuf : Type 0 where
  pub total : ℕ
  pub head : Ptr

abbrev pub empty : Iobuf
empty = record { total = 0; head = 0 }

-- A buffer and the heap.
abbrev pub State : Type 0
State = Iobuf × Heap

-- `IOBuf::Append` of a block, which comes before the head.
unfoldable pub append_block : Ptr → Iobuf → Heap → Option State
append_block b io h =
    let total = (io.total + h.len b) % word in
    let h' = record h {
      next = back_next h.next h.prev io.head b;
      prev = back_prev h.next h.prev io.head b;
    } in
    if io.head == 0
    then some (record { total = total; head = b }, h)
    else if h.live io.head && (h.live (h.prev io.head) && h.live (h.next (h.prev io.head)))
    then some (record io { total = total }, h')
    else none

-- `IOBuf::Pop`: the former head, alone in a ring, or NULL.
unfoldable pub pop : Iobuf → Heap → Option (Ptr × Iobuf × Heap)
pop io h =
    let a = io.head in
    let rear = h.prev a in
    let new_head = h.next a in
    let total = sub64 io.total (h.len a) in
    let h' = record h {
      next = update (update h.next rear new_head) a a;
      prev = update (update h.prev new_head rear) a a;
    } in
    if a == 0
    then some (0, io, h)
    else if not (h.live a)
    then none
    else if rear == a
    then some (a, record { total = total; head = 0 }, h)
    else if h.live rear && h.live new_head
    then some (a, record { total = total; head = new_head }, h')
    else none

-- The end of `IOBuf::TrimEnd`'s round: the rear block goes, and its memory with it.
abbrev pub with_heap : Iobuf → Option Heap → Option State
with_heap io none = none
with_heap io (some h) = some (io, h)

abbrev pub unlink_rear : Ptr → Heap → Heap
unlink_rear p h = record h {
  next = unlink_next h.next h.prev p;
  prev = unlink_prev h.next h.prev p;
}

unfoldable pub remove_rear : Iobuf → Heap → Option State
remove_rear io h =
    let rear = h.prev io.head in
    let total = sub64 io.total (h.len rear) in
    if not (h.live io.head && h.live rear)
    then none
    else if rear == io.head
    then with_heap (record { total = total; head = 0 }) (delete_block rear h)
    else if h.live (h.prev rear) && h.live (h.next rear)
    then with_heap (record io { total = total }) (delete_block rear (unlink_rear rear h))
    else none

-- A region of memory: a buffer, an offset in it, and a size.
abbrev pub Region : Type 0
Region = Ptr × ℕ × ℕ

-- `IOBuf::PreAllocate`
abbrev pub with_region : Region → Option State → Option (Region × State)
with_region m none = none
with_region m (some s) = some (m, s)

unfoldable pub pre_allocate : Iobuf → Heap → Option (Region × State)
pre_allocate io h =
    let b = h.top in
    let rear = h.prev io.head in
    let h' = new_block h in
    if io.head == 0
    then some ((h'.buffer b, 0, h'.cap b), (record io { head = b }, h'))
    else if not (h.live io.head && h.live rear)
    then none
    else if ltb 0 (space rear h)
    then some ((h.buffer rear, h.start rear + h.len rear, space rear h), (io, h))
    else with_region (h'.buffer b, 0, h'.cap b) (append_block b io h')

-- `IOBuf::PostAllocate`
unfoldable pub post_allocate : ℕ → Iobuf → Heap → Option State
post_allocate size io h =
    if not (io.head == 0) && h.live io.head
    then with_heap (record io { total = (io.total + size) % word })
        (block_append size (h.prev io.head) h)
    else none
