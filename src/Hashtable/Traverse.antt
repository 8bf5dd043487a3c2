-- ===== src/Hashtable/Traverse.antt =====
-- hashtable/hashtable.c: `hashtable_clear`, `hashtable_destroy`, `hashtable_apply` and
-- `hashtable_apply2`. The loops run on fuel; `none` is an access to an item that is not allocated, or
-- that the fuel has run out.
use cclab.Base.{
  ℕ, zero, suc, ◌+◌, ◌-◌, ◌%◌, ◌^◌, Bool, false, not, ◌&&◌, ◌||◌, Option, none, some, ◌==◌,
  if◌then◌else◌, leb, is_some,
}
use cclab.Base.Int.{ℤ, pos, minus_one}
use cclab.Hashtable.Store.{Ptr, Items, State, Code, update, reachable, set_next, set_prev}

-- One round of the loop of `hashtable_clear`: the item leaves the list and is freed.
abbrev pub clear_item : Ptr → Items → Items
clear_item p h =
    let h₁ = if h.prev p == 0 then h else set_next (h.prev p) (h.next p) h in
    let h₂ = if h₁.next p == 0 then h₁ else set_prev (h₁.next p) (h₁.prev p) h₁ in
    let h₃ = set_next p 0 (set_prev p 0 h₂) in record h₃ { live = update h₃.live p false }

abbrev pub can_unlink : Items → Ptr → Bool
can_unlink h p =
    h.live p && ((h.prev p == 0 || h.live (h.prev p)) && (h.next p == 0 || h.live (h.next p)))

unfoldable pub clear_loop : (can_free : Bool) → ℕ → Ptr → ℕ → Items → Option (ℕ × Items)
clear_loop can_free zero p n h = none
clear_loop can_free (suc f) p n h =
    let rest = clear_loop can_free f (h.next p) ((n + 2 ^ 32 - 1) % 2 ^ 32) (clear_item p h) in
    if p == 0 then some (n, h) else if can_unlink h p && can_free then rest else none

abbrev pub clear_end : State → Option (ℕ × Items) → Option (ℤ × State)
clear_end s none = none
clear_end s (some (n, h)) = some (
  pos 0,
  record {
    table = record s.table { hash_items = n; head = 0; tail = 0; buckets = some (λ _. 0) };
    items = h;
  },
)

-- `hashtable_clear`
unfoldable pub hashtable_clear : (ht : Bool) → State → Option (ℤ × State)
hashtable_clear ht s =
    if not ht || (not (is_some t.buckets) || (t.head == 0 || t.tail == 0))
    then some (minus_one, s)
    else clear_end s (clear_loop t.can_free (t.hash_items + 1) t.head t.hash_items s.items)
  where
    open s use {table as t}

abbrev pub destroy_end : Option (ℤ × State) → Option (ℤ × State)
destroy_end none = none
destroy_end (some (pos zero, s)) =
    some (pos 0, record s { table = record s.table { buckets = none } })
destroy_end (some (r, s)) = some (minus_one, s)

-- `hashtable_destroy`
unfoldable pub hashtable_destroy : (ht : Bool) → State → Option (ℤ × State)
hashtable_destroy ht s = destroy_end (hashtable_clear ht s)

-- A callback: its result, tested for zero, and what it makes of the table. `none` is undefined.
abbrev pub ApplyFunc : Type 0
ApplyFunc = Ptr → State → Option (Bool × State)

-- What follows a call, with its result and the state it leaves.
abbrev pub after_call : {A : Type 0} → (Bool → State → Option A) → Option (Bool × State) → Option A
after_call next none = none
after_call next (some (r, s)) = next r s

unfoldable pub apply_loop : ApplyFunc → ℕ → Ptr → State → Option State
apply_loop func zero p s = none
apply_loop func (suc f) p s =
    if p == 0
    then some s
    else if s.items.live p
    then after_call (λ _ s'. apply_loop func f (s.items.next p) s') (func p s)
    else none

abbrev pub apply_end : Option State → Option (Code × State)
apply_end none = none
apply_end (some s) = some (Code.ok, s)

-- `hashtable_apply`
unfoldable pub hashtable_apply : (ht : Bool) → Option ApplyFunc → ℕ → State → Option (Code × State)
hashtable_apply ht none fuel s = some (Code.invalid_param, s)
hashtable_apply ht (some func) fuel s =
    if ht then apply_end (apply_loop func fuel s.table.head s) else some (Code.invalid_param, s)

-- The loop of `hashtable_apply2`; `n` is positive, `i` counts the calls that returned non-zero.
unfoldable pub apply2_loop : ApplyFunc → ℕ → ℕ → ℕ → Ptr → State → Option (Ptr × State)
apply2_loop func n zero i p s = none
apply2_loop func n (suc f) i p s =
    if p == 0 || leb n i
    then some (p, s)
    else if s.items.live p
    then after_call (λ r s'. apply2_loop func n f (if r then i + 1 else i) (s.items.next p) s')
        (func p s)
    else none

-- The list is made a circle, cut before `hi`, and `hi` becomes the head.
unfoldable pub rotate : Ptr → State → Option State
rotate hi s =
    if reachable h t.head && (reachable h t.tail && h.live hi)
    then (let h₁ = set_prev t.head t.tail (set_next t.tail t.head h) in
        let tail = h₁.prev hi in
        let h₂ = set_prev hi 0 h₁ in
        if reachable h₂ tail
        then some
            (record { table = record t { head = hi; tail = tail }; items = set_next tail 0 h₂ })
        else none)
    else none
  where
    open s use {table as t, items as h}

abbrev pub apply2_end : Option (Ptr × State) → Option (Code × State)
apply2_end none = none
apply2_end (some (hi, s)) =
    if not (hi == 0) && (not (s.table.head == 0) && not (s.table.tail == 0))
    then elim (rotate hi s) [ none ↦ none | some s' ↦ some (Code.ok, s') ]
    else some (Code.ok, s)

-- `hashtable_apply2`
unfoldable pub hashtable_apply2 :
    (ht : Bool) → ℕ → Option ApplyFunc → ℕ → State → Option (Code × State)
hashtable_apply2 ht n none fuel s = some (Code.invalid_param, s)
hashtable_apply2 ht n (some func) fuel s =
    if not ht || n == 0
    then some (Code.invalid_param, s)
    else apply2_end (apply2_loop func n fuel 0 s.table.head s)
