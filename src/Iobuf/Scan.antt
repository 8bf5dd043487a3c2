-- ===== src/Iobuf/Scan.antt =====
-- httpserver/iobuf.cc: the functions of `IOBuf` that only read.
use cclab.Base.{
  ℕ, zero, suc, ◌+◌, ◌-◌, not, Option, none, some, List, [], ◌++◌, ◌==◌, if◌then◌else◌, ltb,
}
use cclab.Base.Bytes.{copy_out}
use cclab.Base.Pointers.{Ptr}
use cclab.Iobuf.Heap.{Heap}
use cclab.Iobuf.Blocks.{Iobuf}

-- `Block::ToString`
abbrev pub block_bytes : Heap → Ptr → List ℕ
block_bytes h p = copy_out (h.content (h.buffer p)) (h.start p) (h.len p)

-- What `ByteAt` returns where it finds no byte: -1 as a `char`.
abbrev pub no_byte : ℕ
no_byte = 255

-- The loop of `IOBuf::ByteAt` from the block `b`
unfoldable pub byte_loop : ℕ → (head : Ptr) → ℕ → Ptr → Heap → Option ℕ
byte_loop zero head pos b h = none
byte_loop (suc fuel) head pos b h =
    let next = h.next b in
    let rest = byte_loop fuel head (pos - h.len b) next h in
    if b == 0
    then some no_byte
    else if not (h.live b)
    then none
    else if ltb pos (h.len b)
    then some (h.content (h.buffer b) (h.start b + pos))
    else if next == head
    then some no_byte
    else rest

-- `IOBuf::ByteAt`
unfoldable pub byte_at : ℕ → ℕ → Iobuf → Heap → Option ℕ
byte_at fuel pos io h = if ltb pos io.total then byte_loop fuel io.head pos io.head h else none

-- The address that `IOBuf::data` or `IOBuf::tail` gives: NULL, or a buffer and an offset in it.
unfoldable pub data_pointer : Iobuf → Heap → Option (Ptr × ℕ)
data_pointer io h =
    if io.head == 0 then none else some (h.buffer (h.prev io.head), h.start (h.prev io.head))

unfoldable pub tail_pointer : Iobuf → Heap → Option (Ptr × ℕ)
tail_pointer io h =
    let rear = h.prev io.head in
    if io.head == 0 then none else some (h.buffer rear, h.start rear + h.len rear)

-- The loop of `IOBuf::ToString` from the block `b`, with the bytes before
unfoldable pub string_loop : ℕ → (head : Ptr) → List ℕ → Ptr → Heap → Option (List ℕ)
string_loop zero head buf b h = none
string_loop (suc fuel) head buf b h =
    let buf' = buf ++ block_bytes h b in
    let rest = string_loop fuel head buf' (h.next b) h in
    if b == 0
    then some buf
    else if not (h.live b)
    then none
    else if h.next b == head
    then some buf'
    else rest

unfoldable pub to_string : ℕ → Iobuf → Heap → Option (List ℕ)
to_string fuel io h = string_loop fuel io.head [] io.head h

-- `IOBuf::TEST_BlockCount`
unfoldable pub count_loop : ℕ → (head : Ptr) → ℕ → Ptr → Heap → Option ℕ
count_loop zero head n b h = none
count_loop (suc fuel) head n b h =
    let rest = count_loop fuel head (n + 1) (h.next b) h in
    if b == head then some n else if h.live b then rest else none

unfoldable pub block_count : ℕ → Iobuf → Heap → Option ℕ
block_count fuel io h =
    if io.head == 0
    then some 0
    else if h.live io.head
    then count_loop fuel io.head 1 (h.next io.head) h
    else none
