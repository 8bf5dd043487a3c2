-- ===== src/Shmmq/Segment.antt =====
-- shmmq/shmmq.c: the shared segment, its head of two 32-bit counters, and what `shmmq_enqueue` and
-- `shmmq_dequeue` do to it between the two semaphore operations.
use cclab.Base.{ℕ, ◌+◌, ◌-◌, ◌*◌, ◌%◌, ◌^◌, Option, none, some, List, if◌then◌else◌, ◌==◌}
use cclab.Base.Bytes.{Bytes, copy_in, copy_out}
use cclab.Shmmq.Code.{Code}

-- Arithmetic of `unsigned int`.
abbrev pub word : ℕ
word = 2 ^ 32

abbrev pub add32 : ℕ → ℕ → ℕ
add32 a b = (a + b) % word

-- `a - b` for `b` below `word`
abbrev pub sub32 : ℕ → ℕ → ℕ
sub32 a b = (a + word - b) % word

abbrev pub mul32 : ℕ → ℕ → ℕ
mul32 a b = a * b % word

-- `shmmq_head`, and the content that stands DEFAULT_HEAD_SIZE bytes behind it.
pub record Segment : Type 0 where
  pub enq_pos : ℕ
  pub deq_pos : ℕ
  pub content : Bytes

-- `enq_pos = -1; deq_pos = -1`
unfoldable pub init_head : Segment → Segment
init_head s = record s { enq_pos = word - 1; deq_pos = word - 1 }

-- The offset of the slot behind the counter `k`: `(k+1) % g_s_mqsize * g_s_itemsize`.
abbrev pub offset : (mqsize itemsize : ℕ) → ℕ → ℕ
offset mqsize itemsize k = mul32 (add32 k 1 % mqsize) itemsize

-- `deq_pos + g_s_mqsize - 1 == enq_pos`, with the bytes of the item for `memcpy`.
unfoldable pub push : (mqsize itemsize : ℕ) → Segment → List ℕ → Code × Segment
push mqsize itemsize s item =
    if sub32 (add32 s.deq_pos mqsize) 1 == s.enq_pos then (Code.msgqueue_full, s) else (
      Code.success,
      record s {
        enq_pos = add32 s.enq_pos 1;
        content = copy_in s.content (offset mqsize itemsize s.enq_pos) item;
      },
    )

-- The option is what `memcpy` writes through `item`; an empty queue writes nothing.
unfoldable pub pop : (mqsize itemsize : ℕ) → Segment → ℕ → Code × Option (List ℕ) × Segment
pop mqsize itemsize s size = if s.enq_pos == s.deq_pos then (Code.msgqueue_full, none, s) else (
  Code.success,
  some (copy_out s.content (offset mqsize itemsize s.deq_pos) size),
  record s { deq_pos = add32 s.deq_pos 1 },
)
