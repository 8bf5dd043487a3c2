-- ===== src/Iobuf/Ops.antt =====
-- httpserver/iobuf.cc: the loops of `IOBuf` that change it. They run on fuel; `none` is an assertion
-- that fails, an access to a block that is gone, or that the fuel has run out.
use cclab.Base.{
  ℕ, zero, suc, ◌-◌, not, ◌&&◌, ◌||◌, Option, none, some, List, ◌==◌, if◌then◌else◌, ltb, leb,
  length, take,
}
use Prim.Native.Nat.{min}
use cclab.Base.Bytes.{copy_in}
use cclab.Base.Pointers.{Ptr, update}
use cclab.Iobuf.Heap.{Heap, sub64, clone, delete_block, block_trim_start, block_trim_end}
use cclab.Iobuf.Blocks.{
  Iobuf, State, Region, empty, append_block, pop, remove_rear, with_heap, pre_allocate,
  post_allocate,
}

abbrev pub and_then {ℓ κ} : {A : Type ℓ} {B : Type κ} → Option A → (A → Option B) → Option B
and_then none f = none
and_then (some a) f = f a

-- `memcpy` to the memory of a buffer
abbrev pub write_at : Ptr → ℕ → List ℕ → Heap → Heap
write_at b base xs h = record h { content = update h.content b (copy_in (h.content b) base xs) }

-- One round of `IOBuf::Append` of bytes: as many as the memory takes, from the first byte on.
abbrev pub fill : List ℕ → Region × State → Option (ℕ × State)
fill xs ((b, base, room), (io, h)) =
    let n = min room (length xs) in
    and_then (post_allocate n io (write_at b base (take n xs) h)) (λ s. some (n, s))

-- `IOBuf::Append` of bytes, with `remain` left
unfoldable pub append_loop : ℕ → List ℕ → ℕ → Iobuf → Heap → Option State
append_loop zero xs remain io h = none
append_loop (suc fuel) xs remain io h =
    if remain == 0
    then some (io, h)
    else and_then (and_then (pre_allocate io h) (fill xs))
        (λ (n, (io', h')). append_loop fuel xs (sub64 remain n) io' h')

unfoldable pub append_bytes : ℕ → List ℕ → Iobuf → Heap → Option State
append_bytes fuel xs io h = append_loop fuel xs (length xs) io h

-- `Pop();` as a statement: the block goes with the pointer that is returned.
abbrev pub drop_popped : Ptr × Iobuf × Heap → Option State
drop_popped (p, io, h) = if p == 0 then some (io, h) else with_heap io (delete_block p h)

-- `IOBuf::TrimStart`
unfoldable pub trim_start : ℕ → ℕ → Iobuf → Heap → Option State
trim_start zero amount io h = none
trim_start (suc fuel) amount io h =
    if amount == 0 || io.head == 0
    then some (io, h)
    else if not (h.live io.head)
    then none
    else if ltb amount (h.len io.head)
    then with_heap (record io { total = sub64 io.total amount }) (block_trim_start amount io.head h)
    else and_then (and_then (pop io h) drop_popped)
        (λ (io', h'). trim_start fuel (amount - h.len io.head) io' h')

-- `IOBuf::TrimEnd`
unfoldable pub trim_end : ℕ → ℕ → Iobuf → Heap → Option State
trim_end zero amount io h = none
trim_end (suc fuel) amount io h =
    let rear = h.prev io.head in
    if amount == 0 || io.head == 0
    then some (io, h)
    else if not (h.live io.head && h.live rear)
    then none
    else if ltb amount (h.len rear)
    then with_heap (record io { total = sub64 io.total amount }) (block_trim_end amount rear h)
    else and_then (remove_rear io h) (λ (io', h'). trim_end fuel (amount - h.len rear) io' h')

-- The last round of `IOBuf::Split`: the first `n` bytes of the head, in a clone of it.
abbrev pub split_head : ℕ → Iobuf → Iobuf → Heap → Option (Iobuf × State)
split_head n buf io h =
    let b = h.top in
    and_then (block_trim_end (h.len io.head - n) b (clone io.head h)) (λ h₁.
      and_then (append_block b buf h₁) (λ (buf', h₂).
        and_then (block_trim_start n io.head h₂)
          (λ h₃. some (buf', (record io { total = sub64 io.total n }, h₃)))))

-- `IOBuf::Split`, with the part that is split off
unfoldable pub split_loop : ℕ → ℕ → Iobuf → Iobuf → Heap → Option (Iobuf × State)
split_loop zero n buf io h = none
split_loop (suc fuel) n buf io h =
    if n == 0 || io.head == 0
    then some (buf, (io, h))
    else if not (h.live io.head)
    then none
    else if leb (h.len io.head) n
    then and_then (pop io h) (λ (p, io', h').
      and_then (append_block p buf h')
        (λ (buf', h''). split_loop fuel (n - h.len io.head) buf' io' h''))
    else split_head n buf io h

unfoldable pub split : ℕ → ℕ → Iobuf → Heap → Option (Iobuf × State)
split fuel n io h = split_loop fuel n empty io h

-- `~IOBuf`
unfoldable pub destroy : ℕ → Iobuf → Heap → Option Heap
destroy zero io h = none
destroy (suc fuel) io h =
    if io.head == 0
    then some h
    else and_then (and_then (pop io h) drop_popped) (λ (io', h'). destroy fuel io' h')
