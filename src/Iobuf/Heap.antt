-- ===== src/Iobuf/Heap.antt =====
-- httpserver/iobuf.h, httpserver/iobuf.cc: the class `Block`, its objects on the heap, and the memory
-- that they point to.
use cclab.Base.{
  ℕ, ◌+◌, ◌-◌, ◌*◌, ◌%◌, ◌^◌, Bool, true, false, ◌&&◌, Option, none, some, if◌then◌else◌, ltb, leb,
}
use cclab.Base.Bytes.{Bytes}
use cclab.Base.Pointers.{Ptr, update}

-- `size_t`
abbrev pub word : ℕ
word = 2 ^ 64

abbrev pub sub64 : ℕ → ℕ → ℕ
sub64 a b = (a + word - b) % word

-- `kDefaultBufferSize - sizeof(SharedInfo)`
abbrev pub block_capacity : ℕ
block_capacity = 512 * 1024 - 4

-- For each field of `Block` a function from the object's address; `start` is `data_ - buffer_`. Behind
-- a buffer of `malloc` stands its count of references. `top` is the next address that `new` and
-- `malloc` give; they do not fail.
pub record Heap : Type 0 where
  pub live : Ptr → Bool
  pub buffer : Ptr → Ptr
  pub start : Ptr → ℕ
  pub len : Ptr → ℕ
  pub cap : Ptr → ℕ
  pub next : Ptr → Ptr
  pub prev : Ptr → Ptr
  pub content : Ptr → Bytes
  pub refs : Ptr → ℕ
  pub held : Ptr → Bool
  pub top : Ptr

-- `new Block`
abbrev pub new_block : Heap → Heap
new_block h = record h {
  live = update h.live h.top true;
  buffer = update h.buffer h.top h.top;
  start = update h.start h.top 0;
  len = update h.len h.top 0;
  cap = update h.cap h.top block_capacity;
  next = update h.next h.top h.top;
  prev = update h.prev h.top h.top;
  refs = update h.refs h.top 1;
  held = update h.held h.top true;
  top = h.top + 1;
}

-- `Block::Clone`: a new object with the same buffer.
unfoldable pub clone : Ptr → Heap → Heap
clone p h = record h {
  live = update h.live h.top true;
  buffer = update h.buffer h.top (h.buffer p);
  start = update h.start h.top (h.start p);
  len = update h.len h.top (h.len p);
  cap = update h.cap h.top (h.cap p);
  next = update h.next h.top h.top;
  prev = update h.prev h.top h.top;
  refs = update h.refs (h.buffer p) (h.refs (h.buffer p) + 1);
  top = h.top + 1;
}

-- `Block::Unref`: the buffer goes with its last reference.
abbrev pub unref : Ptr → Heap → Heap
unref p h =
    let b = h.buffer p in
    record h {
      refs = update h.refs b (h.refs b - 1);
      held = if ltb 1 (h.refs b) then h.held else update h.held b false;
    }

-- `delete` of a block
unfoldable pub delete_block : Ptr → Heap → Option Heap
delete_block p h =
    let h' = unref p h in
    if h.live p && h.held (h.buffer p)
    then some (record h' { live = update h.live p false })
    else none

-- `Block::TrimStart`, `Block::TrimEnd` and `Block::Append`, with their assertions
unfoldable pub block_trim_start : ℕ → Ptr → Heap → Option Heap
block_trim_start amount p h =
    if h.live p && leb amount (h.len p)
    then some (record h {
      start = update h.start p (h.start p + amount);
      len = update h.len p (h.len p - amount);
    })
    else none

unfoldable pub block_trim_end : ℕ → Ptr → Heap → Option Heap
block_trim_end amount p h =
    if h.live p && leb amount (h.len p)
    then some (record h { len = update h.len p (h.len p - amount) })
    else none

unfoldable pub block_append : ℕ → Ptr → Heap → Option Heap
block_append size p h =
    if h.live p && leb ((h.len p + size) % word) (h.cap p)
    then some (record h { len = update h.len p ((h.len p + size) % word) })
    else none

-- `Block::Space`
abbrev pub space : Ptr → Heap → ℕ
space p h = sub64 (h.cap p) (h.start p + h.len p)
