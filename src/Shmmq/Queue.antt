-- ===== src/Shmmq/Queue.antt =====
-- What the message queue promises: a FIFO of at most `cap` blocks of bytes.
use cclab.Base.{ℕ, Option, none, some, List, [], ◌∷◌, ◌++◌, if◌then◌else◌, ◌==◌, length, take}
use cclab.Shmmq.Code.{Code}

abbrev pub Queue : Type 0
Queue = List (List ℕ)

unfoldable pub push : ℕ → Queue → List ℕ → Code × Queue
push cap q x = if length q == cap then (Code.msgqueue_full, q) else (Code.success, q ++ (x ∷ []))

-- A reader asks for the first `size` bytes of the oldest block.
unfoldable pub pop : Queue → ℕ → Code × Option (List ℕ) × Queue
pop [] size = (Code.msgqueue_full, none, [])
pop (x ∷ q) size = (Code.success, some (take size x), q)
