-- ===== src/Iobuf/Tests.antt =====
-- httpserver/iobuf.cc: the theorems at buffers of one block, and the code run on small inputs.
use cclab.Base.{
  ℕ, ◌+◌, ◌≤◌, ◌≡◌, ◌<◌, refl, sym, ◌∙◌, true, Option, some, List, [], ◌∷◌, ◌++◌, ◌==◌, length,
  arith,
}
use cclab.Base.Bytes.{copy_in, copy_out}
use cclab.Base.Pointers.{Ptr}
use cclab.Iobuf.Heap.{
  Heap, space, block_capacity, clone, block_trim_start, block_trim_end, block_append,
}
use cclab.Iobuf.Blocks.{Iobuf, append_block, pre_allocate, post_allocate}
use cclab.Iobuf.Ops.{and_then, append_loop, append_bytes, trim_start, trim_end, split_loop, split}
use cclab.Iobuf.Scan.{tail_pointer, to_string, string_loop, byte_at, block_count}
use cclab.Iobuf.Valid.{bytes, IsValid, length-bytes}
use cclab.Iobuf.Append.{append_bytes_refines}
use cclab.Iobuf.Read.{reading_refines, byte_at_refines}
use cclab.Iobuf.Split.{Parts, split_refines}
use cclab.Iobuf.TrimEnd.{trim_end_refines}
use cclab.Iobuf.Destroy.{Destroyed, destroy_frees}
use cclab.Iobuf.Share.{split-Shares}
use cclab.Iobuf.Trim.{trim_start_refines}

-- A heap with one block, of `n` bytes.
abbrev one_block : ℕ → Heap
one_block n = record {
  live = λ p. p == 1;
  buffer = λ p. 1;
  start = λ p. 0;
  len = λ p. n;
  cap = λ p. block_capacity;
  next = λ p. 1;
  prev = λ p. 1;
  content = λ b i. 10 + i;
  refs = λ b. 1;
  held = λ b. true;
  top = 2;
}

abbrev one : ℕ → Iobuf
one n = record { total = n; head = 1 }

one_block-IsValid : (n : ℕ) → n ≤ block_capacity → IsValid (one n) (one_block n) (1 ∷ [])
one_block-IsValid n le =
    let size : length (bytes (one_block n) (1 ∷ [])) ≡ n =
      length-bytes (one_block n) 1 [] ∙ omega arith in
    record {
      ring = (refl, (refl, refl));
      distinct = (refl, tt);
      not_null = refl;
      blocks = λ p m.
          let e : p ≡ 1 = ground arith in
          rw e (record {
            live = refl;
            held = refl;
            given = omega arith;
            memory = omega arith;
            sized = refl;
            fits = omega (arith, le);
          });
      own = λ p q i j e. ground arith;
      counted = sym size;
      small = omega (arith, size, le);
      positive = omega arith;
    }

few : IsValid (one 3) (one_block 3) (1 ∷ [])
few = one_block-IsValid 3 (omega arith)

append_bytes_refines_example :
    (io' : Iobuf) × (h' : Heap) × (ps' : List Ptr) × (append_bytes 2
        (7 ∷ 8 ∷ [])
        (one 3)
        (one_block 3)
      ≡ some (io', h'))
    × IsValid io' h' ps'
    × (bytes h' ps' ≡ bytes (one_block 3) (1 ∷ []) ++ (7 ∷ 8 ∷ []))
unfolding copy_out
append_bytes_refines_example =
    append_bytes_refines 2 (7 ∷ 8 ∷ []) (one 3) (one_block 3) (1 ∷ []) few
      (omega (arith, few.small)) (omega arith) (omega arith)

reading_refines_example :
    (to_string 2 (one 3) (one_block 3) ≡ some (10 ∷ 11 ∷ 12 ∷ []))
    × (block_count 2 (one 3) (one_block 3) ≡ some 1)
unfolding copy_out
reading_refines_example = reading_refines 2 (one 3) (one_block 3) (1 ∷ []) few (omega arith)

byte_at-one : byte_at 2 1 (one 3) (one_block 3) ≡ some 11
unfolding copy_out
byte_at-one =
    byte_at_refines 2 1 (one 3) (one_block 3) (1 ∷ []) few (omega arith)
      (omega (arith, length-bytes (one_block 3) 1 []))

trim_start_refines_example :
    (io' : Iobuf) × (h' : Heap) × (ps' : List Ptr) × (trim_start 2 1 (one 3) (one_block 3)
      ≡ some (io', h'))
    × IsValid io' h' ps'
    × (bytes h' ps' ≡ 11 ∷ 12 ∷ [])
unfolding copy_out
trim_start_refines_example = trim_start_refines 2 1 (one 3) (one_block 3) (1 ∷ []) few (omega arith)

split_refines_example : Parts (split 2 1 (one 3) (one_block 3)) (10 ∷ []) (11 ∷ 12 ∷ [])
unfolding copy_out
split_refines_example = split_refines 2 1 (one 3) (one_block 3) (1 ∷ []) few (omega arith)

-- What the other buffer reads after bytes are appended to the part that was split off.
abbrev overwritten : Option (List ℕ)
overwritten = and_then (split 2 1 (one 3) (one_block 3)) (λ (part, (rest, h)).
    and_then (append_bytes 3 (77 ∷ []) part h) (λ (part', h'). to_string 2 rest h'))

-- The split-off part writes over the bytes of the other.
overwritten_first : overwritten ≡ some (77 ∷ 12 ∷ [])
unfolding copy_out copy_in split split_loop append_bytes append_loop pre_allocate post_allocate
    block_append block_trim_end block_trim_start clone append_block to_string string_loop
overwritten_first = refl

trim_end_refines_example :
    (io' : Iobuf) × (h' : Heap) × (ps' : List Ptr) × (trim_end 2 2 (one 3) (one_block 3)
      ≡ some (io', h'))
    × IsValid io' h' ps'
    × (bytes h' ps' ≡ 10 ∷ [])
unfolding copy_out
trim_end_refines_example = trim_end_refines 2 2 (one 3) (one_block 3) (1 ∷ []) few (omega arith)

destroy_frees_example : Destroyed 2 (one 3) (one_block 3) (1 ∷ [])
destroy_frees_example = destroy_frees 2 (one 3) (one_block 3) (1 ∷ []) few (omega arith)

split-Shares_example :
    (part rest : Iobuf) × (h' : Heap) × (split 2 2 (one 3) (one_block 3) ≡ some (part, (rest, h')))
    × (tail_pointer part h' ≡ some (h'.buffer rest.head, h'.start rest.head))
    × (0 < h'.len rest.head)
    × (0 < space part.head h')
split-Shares_example = split-Shares 1 2 (one 3) (one_block 3) 1 [] few (omega arith) (omega arith)
