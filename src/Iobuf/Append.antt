-- ===== src/Iobuf/Append.antt =====
-- httpserver/iobuf.cc: `IOBuf::Append` of bytes.
use cclab.Base.{
  ℕ, zero, suc, ◌+◌, ◌<◌, ◌≤◌, ◌≡◌, refl, sym, ◌∙◌, ap, true, false, some, List, [], ◌∷◌, ◌++◌,
  ◌==◌, length, append-nil, arith, take_all,
}
use cclab.Base.Pointers.{Ptr}
use cclab.Iobuf.Heap.{Heap, word, sub64}
use cclab.Iobuf.Blocks.{Iobuf}
use cclab.Iobuf.Ops.{append_loop, append_bytes}
use cclab.Iobuf.Valid.{bytes, IsValid}
use cclab.Iobuf.Room.{Room, room_behind}
use cclab.Iobuf.Fill.{Filled, fill_lem}

-- Bytes that fit into the room behind a valid buffer arrive: `Append` ends after two rounds and leaves a
-- valid buffer, which holds them behind the others.
pub append_bytes_refines :
    (fuel : ℕ) (xs : List ℕ) (io : Iobuf) (h : Heap) (ps : List Ptr)
    → IsValid io h ps
    → length (bytes h ps) + length xs < word
    → length xs ≤ room_behind io h
    → 1 < fuel
    → (io' : Iobuf) × (h' : Heap) × (ps' : List Ptr) × (append_bytes fuel xs io h ≡ some (io', h'))
      × IsValid io' h' ps'
      × (bytes h' ps' ≡ bytes h ps ++ xs)
unfolding append_bytes append_loop
append_bytes_refines zero xs io h ps v small fits lt = absurd (omega arith)
append_bytes_refines (suc zero) xs io h ps v small fits lt = absurd (omega arith)
append_bytes_refines (suc (suc fuel)) [] io h ps v small fits lt =
    (io, h, ps, refl, v, sym (append-nil (bytes h ps)))
append_bytes_refines (suc (suc fuel)) (x ∷ xs) io h ps v small fits lt =
    let l = x ∷ xs in
    let f : Filled io h ps l = fill_lem io h ps l v small in
    let all : f.taken ≡ length l = f.amount ∙ omega (arith, fits) in
    let more : (length l == 0) ≡ false = ground arith in
    let done : (sub64 (length l) f.taken == 0) ≡ true = ground (arith, all, small) in
    (
      f.whole,
      f.heap,
      f.blocks,
      rw (more, f.done, done) refl,
      f.valid,
      f.same ∙ ap (λ ys. bytes h ps ++ ys) (take_all f.taken l (omega (arith, all))),
    )

-- After `k` rounds the loop has not failed and is not over: the buffer is valid, bytes remain, and what the
-- loop does on any rounds more is what it does from there.
pub record StillRuns (k : ℕ) (xs : List ℕ) (remain : ℕ) (io : Iobuf) (h : Heap) : Type 0 where
  pub remain' : ℕ
  pub io' : Iobuf
  pub heap : Heap
  pub blocks : List Ptr
  pub valid : IsValid io' heap blocks
  pub more : 0 < remain'
  pub rest :
      (fuel : ℕ) → append_loop (k + fuel) xs remain io h ≡ append_loop fuel xs remain' io' heap
