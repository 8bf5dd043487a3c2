-- ===== src/Iobuf/Destroy.antt =====
-- httpserver/iobuf.cc: the destructor of `IOBuf`.
use cclab.Base.{
  ℕ, zero, suc, ◌<◌, ◌≡◌, refl, sym, ◌∙◌, ap, ◌≢◌, inl, inr, true, false, some, List, [], ◌∷◌, ◌==◌,
  length, Bool-cases, arith,
}
use cclab.Base.Pointers.{Ptr, has}
use cclab.Iobuf.Heap.{Heap}
use cclab.Iobuf.Blocks.{Iobuf}
use cclab.Iobuf.Ops.{destroy}
use cclab.Iobuf.Valid.{IsValid}
use cclab.Iobuf.Trim.{Dropped, drop_lem}

-- A destructor that ends: the blocks are gone, and so is the memory to which no other block points; what was gone stays so.
pub record Destroyed (fuel : ℕ) (io : Iobuf) (h : Heap) (ps : List Ptr) : Type 0 where
  pub heap : Heap
  pub done : destroy fuel io h ≡ some heap
  pub fewer : (q : Ptr) → h.live q ≡ false → heap.live q ≡ false
  pub freed : (b : Ptr) → h.held b ≡ false → heap.held b ≡ false
  pub gone : (q : Ptr) → has q ps ≡ true → heap.live q ≡ false
  pub last : (q : Ptr) → has q ps ≡ true → h.refs (h.buffer q) ≡ 1 → heap.held (h.buffer q) ≡ false

-- On more rounds than a valid buffer has blocks, its destructor ends without a fault. Each of its blocks
-- is gone, and so is the memory of each to which no other block points.
pub destroy_frees :
    (fuel : ℕ) (io : Iobuf) (h : Heap) (ps : List Ptr)
    → IsValid io h ps
    → length ps < fuel
    → Destroyed fuel io h ps
unfolding destroy
destroy_frees zero io h ps v lt = absurd (omega arith)
destroy_frees (suc fuel) io h [] v lt = record {
  heap = h;
  done = let e : (io.head == 0) ≡ true = ground (arith, v.ring) in rw e refl;
  fewer = λ q e. e;
  freed = λ b e. e;
  gone = λ q m. cc;
  last = λ q m e. cc;
}
destroy_frees (suc fuel) io h (p ∷ ps) v lt =
    let go_on : (io.head == 0) ≡ false = ground (arith, v.ring, v.not_null) in
    let d : Dropped io h p ps = drop_lem io h p ps v in
    let x = destroy_frees fuel d.rest d.heap ps d.valid (omega (arith, lt)) in
    record {
      heap = x.heap;
      done = rw (go_on, d.done) x.done;
      fewer = λ q e. x.fewer q (d.fewer q e);
      freed = λ b e. x.freed b (d.freed b e);
      gone = λ q m. elim (Bool-cases (q == p)) [
        | inl y ↦ let e : p ≡ q = ground arith in x.fewer q (ap d.heap.live (sym e) ∙ d.gone)
        | inr z ↦ x.gone q (ground arith)
      ];
      last = λ q m one. elim (Bool-cases (q == p)) [
        | inl y ↦
            let e : q ≡ p = ground arith in
            let f : h.refs (h.buffer p) ≡ 1 = ap (λ a. h.refs (h.buffer a)) (sym e) ∙ one in
            ap (λ a. x.heap.held (h.buffer a)) e ∙ x.freed (h.buffer p) (d.last f)
        | inr z ↦
            let m' : has q ps ≡ true = ground arith in
            let ne : h.buffer q ≢ h.buffer p =
              λ e. let f : q ≡ p = v.own q p m (ground arith) e in ground arith in
            ap x.heap.held (sym (d.buffer q))
            ∙ x.last q m' (ap d.heap.refs (d.buffer q) ∙ d.refs (h.buffer q) ne ∙ one)
      ];
    }
