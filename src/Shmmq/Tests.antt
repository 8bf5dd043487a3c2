-- ===== src/Shmmq/Tests.antt =====
-- shmmq at concrete inputs: runs of the functions over a small system, and the theorems at them.
use Prim.Native.Nat.{◌∣◌}
use native.Mathlib.Nat.{dvd-mul_right}
use cclab.Base.{
  ℕ, zero, suc, ◌+◌, ◌-◌, ◌^◌, ◌≡◌, refl, Bool, true, false, none, some, List, [], ◌∷◌, ◌++◌, arith,
  if◌then◌else◌, ltb,
}
use cclab.Base.Int.{ℤ, pos, negsuc, minus_one}
use cclab.Base.Bytes.{copy_in, copy_out}
use cclab.Shmmq.Code.{Code, number, get_errstr, get_errstr-Shifted, past_end}
use cclab.Shmmq.Queue
use cclab.Shmmq.Segment
use cclab.Shmmq.Segment.{Segment, word, init_head}
use cclab.Shmmq.Slots.{Fits, IsValid, window, contents, filler}
use cclab.Shmmq.Refine.{push_refines, pop_refines, push-IsValid}
use cclab.Shmmq.System.{Ipc, Globals}
use cclab.Shmmq.Semaphore.{initial, is_success, failing}
use cclab.Shmmq.Lifecycle.{shmmq_open, shmmq_close}
use cclab.Shmmq.Transfer.{shmmq_enqueue, shmmq_dequeue, shmmq_clear, critical_index}
use cclab.Shmmq.Locking.{Locked, after, enqueue_refines, dequeue_refines, shmmq_clear_lem}
use cclab.Shmmq.Ensures.{Ensures}
use cclab.Shmmq.Balance.{Kept, enqueue-Balanced, dequeue-Balanced, clear-Balanced}
use cclab.Base.Pointers.{update}
use cclab.Shmmq.Processes.{
  outside, entered, access, Processes, all_outside, after_access, Reached, begin, enter, proceed,
  leave,
}
use cclab.Shmmq.Interleaved.{interleaved_refines, processes_exclude}
use cclab.Shmmq.Trace.{Op, put, get, run, run_queue, run_refines}
use cclab.Shmmq.Overflow.{wrap_overwrites}
use cclab.Shmmq.Lifetime.{Granted, opened, open_creates, open_refused, close_dangles}

-- A system with one semaphore, whose acquisition fails where it would wait, and one segment, mapped
-- at address 64 while it is attached.
record Machine : Type 0 where
  count : ℕ
  attached : Bool
  shared : Segment

abbrev take_semaphore : Machine → ℕ → ℤ × Machine
take_semaphore w zero = (minus_one, w)
take_semaphore w (suc n) = (pos 0, record w { count = n })

abbrev machine_semop : ℤ → ℤ → Machine → ℤ × Machine
machine_semop id (negsuc n) w = take_semaphore w w.count
machine_semop id (pos n) w = (pos 0, record w { count = w.count + n })

abbrev machine : Ipc
machine = record {
  World = Machine;
  semget = λ key w. (pos 5, w);
  semctl_setval = λ id v w. (pos 0, record w { count = v });
  semctl_rmid = λ id w. (pos 0, w);
  semop = machine_semop;
  shmget = λ key size create w. (pos 6, w);
  shmat = λ id w. (some 64, record w { attached = true });
  shmdt = λ a w. (pos 0, record w { attached = false });
  shmctl_rmid = λ id w. (pos 0, w);
  segment = λ a w. if w.attached then some w.shared else none;
  put_segment = λ a s w. record w { shared = s };
}

-- As `machine`, but `shmget` fails.
abbrev full_machine : Ipc
full_machine = record machine { shmget = λ key size create w. (minus_one, w) }

-- Four slots of two bytes, with one block in slot 0.
abbrev one_block : Segment
one_block = record { enq_pos = 0; deq_pos = word - 1; content = λ a. a + 7 }

abbrev ready : Globals
ready = record {
  semid = pos 5;
  shmid = pos 6;
  mqsize = 4;
  itemsize = 2;
  pbase = some 64;
  phead = some 64;
}

abbrev idle : Machine
idle = record { count = 1; attached = true; shared = one_block }

abbrev busy : Machine
busy = record { count = 0; attached = true; shared = one_block }

abbrev off : Machine
off = record { count = 0; attached = false; shared = one_block }

four_divides : 4 ∣ word
four_divides = dvd-mul_right 4 (2 ^ 30)

one_block-Fits : Fits 4 2
one_block-Fits = record {
  some_slot = omega arith;
  an_int = omega arith;
  aligned = four_divides;
  small = omega arith;
}

one_block-IsValid : IsValid 4 one_block
one_block-IsValid = omega arith

idle-Locked : Locked machine ready idle busy 64 one_block
idle-Locked = record { acquired = refl; head = refl; mapped = refl }

contents-one_block : contents 4 2 one_block ≡ (7 ∷ 8 ∷ []) ∷ []
unfolding contents window copy_out
contents-one_block = refl

abbrev item : List ℕ
item = 1 ∷ 2 ∷ []

push_one_slot :
    let (c, s') = Segment.push 4 2 one_block item in
    (c, contents 4 2 s') ≡ Queue.push 3 (contents 4 2 one_block) (item ++ filler 4 2 one_block item)
push_one_slot = push_refines 4 2 one_block item one_block-Fits one_block-IsValid (omega arith)

pop_one_slot :
    let (c, out, s') = Segment.pop 4 2 one_block 1 in
    (c, out, contents 4 2 s') ≡ Queue.pop (contents 4 2 one_block) 1
pop_one_slot = pop_refines 4 2 one_block 1 one_block-Fits one_block-IsValid (omega arith)

pushed_valid : IsValid 4 (Segment.push 4 2 one_block item).1
pushed_valid = push-IsValid 4 2 one_block item one_block-Fits one_block-IsValid

enqueue_refines_example :
    let (c, s') = Segment.push 4 2 one_block item in
    (shmmq_enqueue machine (some item) (pos 2) ready idle
      ≡ after machine ready (λ r. r) c (if is_success c then record busy { shared = s' } else busy))
    × ((c, contents 4 2 s')
        ≡ Queue.push 3 (contents 4 2 one_block) (item ++ filler 4 2 one_block item))
    × IsValid 4 s'
enqueue_refines_example =
    enqueue_refines machine item 2 ready idle busy 64 one_block (omega arith) (omega arith)
      (omega arith) idle-Locked one_block-Fits one_block-IsValid

dequeue_refines_example :
    let (c, out, s') = Segment.pop 4 2 one_block 2 in
    (shmmq_dequeue machine (some 2) (pos 2) ready idle
      ≡ after machine ready
          (λ r. (r, out))
          c
          (if is_success c then record busy { shared = s' } else busy))
    × ((c, out, contents 4 2 s') ≡ Queue.pop (contents 4 2 one_block) 2)
    × IsValid 4 s'
dequeue_refines_example =
    dequeue_refines machine 2 2 ready idle busy 64 one_block (omega arith) (omega arith)
      (omega arith) idle-Locked one_block-Fits one_block-IsValid

cleared_once :
    shmmq_clear machine (some λ b e. e) ready idle
    ≡ after machine ready
        (λ r. r)
        (if ltb (critical_index ready one_block λ b e. e) 4
          then Code.success
          else Code.invalid_argument)
        busy
cleared_once =
    shmmq_clear_lem machine (λ b e. e) ready idle busy 64 one_block idle-Locked (omega arith)

enqueue-Balanced_example :
    Ensures
      (Kept machine (λ c. c) ready idle)
      (shmmq_enqueue machine (some item) (pos 2) ready idle)
enqueue-Balanced_example = enqueue-Balanced machine (some item) (pos 2) ready idle

dequeued_balanced :
    Ensures (Kept machine (λ c. c.0) ready idle) (shmmq_dequeue machine (some 2) (pos 2) ready idle)
dequeued_balanced = dequeue-Balanced machine (some 2) (pos 2) ready idle

cleared_balanced :
    Ensures (Kept machine (λ c. c) ready idle) (shmmq_clear machine (some λ b e. e) ready idle)
cleared_balanced = clear-Balanced machine (some λ b e. e) ready idle

abbrev script : List Op
script = put item ∷ get 2 ∷ get 1 ∷ get 2 ∷ put (3 ∷ 4 ∷ []) ∷ []

run-one_block :
    run 4 2 one_block script
    ≡ (Code.success, none)
      ∷ (Code.success, some (7 ∷ 8 ∷ []))
      ∷ (Code.success, some (1 ∷ []))
      ∷ (Code.msgqueue_full, none)
      ∷ (Code.success, none)
      ∷ []
unfolding run Segment.push Segment.pop copy_in copy_out
run-one_block = refl

run_refines_example : run 4 2 one_block script ≡ run_queue 3 (contents 4 2 one_block) script
run_refines_example =
    run_refines 4 2 one_block script one_block-Fits one_block-IsValid (omega arith)

-- 2^32 leaves 1 when divided by 3; one item is held when the write counter is 2^32 - 1.
abbrev at_the_end : Segment
at_the_end = record { enq_pos = word - 1; deq_pos = word - 2; content = λ a. 9 }

wrap_overwrites_example :
    let (c, s') = Segment.push 3 2 at_the_end item in
    let (c', out, _) = Segment.pop 3 2 s' 2 in
    (c ≡ Code.success) × (c' ≡ Code.success) × (out ≡ some item)
wrap_overwrites_example =
    wrap_overwrites 3 2 at_the_end item (omega arith) (omega arith) (omega arith) refl refl refl

off-Granted : Granted machine 5 6 64 (pos 4) (pos 2) off busy one_block
off-Granted = record {
  w₁ = off;
  w₂ = record off { count = 1 };
  w₃ = off;
  w₄ = off;
  got_set = refl;
  value_set = refl;
  acquired = refl;
  got_shm = refl;
  got_base = refl;
  mapped = refl;
}

created_queue :
    (shmmq_open machine true (pos 4) (pos 2) initial off ≡ (
      let (v, u') = machine_semop (pos 5) (pos 1) (record busy { shared = init_head one_block }) in
      some
        (failing v Code.semaphore_v Code.success, opened (pos 5) (pos 6) 64 (pos 4) (pos 2), u')))
    × IsValid 4 (init_head one_block)
    × (contents 4 2 (init_head one_block) ≡ [])
created_queue =
    open_creates machine 5 6 64 (pos 4) (pos 2) initial off busy one_block (omega arith) off-Granted

refused_open :
    (g' : Globals) × (shmmq_open full_machine true (pos 4) (pos 2) initial off
      ≡ some (Code.shmget, g', record off { count = 1 }))
    × (g'.shmid ≡ minus_one)
refused_open =
    open_refused full_machine 5 (pos 4) (pos 2) initial off off (record off { count = 1 }) off off
      (omega arith) refl refl refl refl

close_dangles_example :
    (shmmq_close machine false ready idle
      ≡ some (Code.success, record ready { pbase = none }, record idle { attached = false }))
    × (shmmq_enqueue machine
          (some item)
          (pos 2)
          (record ready { pbase = none })
          (record idle { attached = false })
        ≡ none)
close_dangles_example =
    close_dangles machine item 2 64 ready idle (record idle { attached = false }) off (omega arith)
      (omega arith) refl refl refl refl refl

get_errstr-Shifted_example : get_errstr (pos (number Code.msgqueue_full)) ≡ past_end
get_errstr-Shifted_example = get_errstr-Shifted Code.msgqueue_full

-- Process 0 puts an item, in six accesses, and process 1, which has come in behind it, has begun.
abbrev put_after : ℕ → Processes
put_after zero = record (all_outside one_block) {
  semaphore = 0;
  phase = update (λ k. outside) 0 (entered (put item));
}
put_after (suc n) = after_access 4 2 0 (put_after n)

put_after-Reached : (n : ℕ) → Reached 4 2 one_block (put_after n)
put_after-Reached zero = enter 0 0 (put item) (all_outside one_block) begin refl refl
put_after-Reached (suc n) = proceed 0 (put_after n) (put_after-Reached n)

abbrev put_left : Processes
put_left = record (put_after 6) {
  semaphore = 1;
  phase = update (put_after 6).phase 0 outside;
  calls = (put item, (Code.success, none)) ∷ [];
}

abbrev get_entered : Processes
get_entered = record put_left { semaphore = 0; phase = update put_left.phase 1 (entered (get 2)) }

abbrev get_begun : Processes
get_begun = after_access 4 2 1 get_entered

put_left-Reached : Reached 4 2 one_block put_left
unfolding access
put_left-Reached = leave 0 (put item) (Code.success, none) (put_after 6) (put_after-Reached 6) refl

get_begun-Reached : Reached 4 2 one_block get_begun
unfolding access
get_begun-Reached = proceed 1 get_entered (enter 1 0 (get 2) put_left put_left-Reached refl refl)

interleaved_refines_example :
    (Code.success, none) ∷ [] ≡ run_queue 3 (contents 4 2 one_block) (put item ∷ [])
unfolding access
interleaved_refines_example =
    interleaved_refines 4 2 one_block get_begun get_begun-Reached one_block-Fits one_block-IsValid
      (refl, tt)

processes_exclude_example : get_begun.phase 0 ≡ outside
unfolding access
processes_exclude_example =
    processes_exclude 4 2 one_block 1 0 get_begun get_begun-Reached (λ e. cc)
      (λ e. omega (arith, e))
