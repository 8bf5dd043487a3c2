-- ===== src/Iobuf/Split.antt =====
-- httpserver/iobuf.cc: `IOBuf::Split`.
use mathlib.Core.Path.{ap₂}
use cclab.Base.{
  ℕ, zero, suc, ◌-◌, ◌<◌, ◌≤◌, ◌≡◌, refl, sym, ◌∙◌, ap, ◌≢◌, inl, inr, true, false, ◌||◌, Option,
  some, List, [], ◌∷◌, ◌++◌, ◌==◌, leb, length, append_assoc, append-nil, Bool-cases, arith, take,
  take-append, take-append_lt, drop, drop-append,
}
use cclab.Base.Pointers.{Ptr, has, has-append}
use cclab.Iobuf.Heap.{Heap, sub64}
use cclab.Iobuf.Blocks.{Iobuf, State, empty}
use cclab.Iobuf.Ops.{split_head, split_loop, split}
use cclab.Iobuf.Scan.{block_bytes}
use cclab.Iobuf.Valid.{
  bytes, IsBlock, IsValid, length-bytes, length-block_bytes, bytes-append, bytes-eq, relinked,
}
use cclab.Iobuf.Link.{Linked, append_block_lem}
use cclab.Iobuf.Trim.{trimmed, trimmed-IsValid}
use cclab.Iobuf.Cut.{
  Agrees, Agrees-block_bytes, Agrees-IsValid, cut, Agrees-cut, cut-IsApart, cut-top, trim_end-cut,
  trim_start-trimmed, Agrees-trimmed,
}
use cclab.Iobuf.Move.{relinked-IsValid, Halves, Moved, move_lem}

-- Two buffers with what the first held, the part of it that is split off behind the others.
pub record Parts (o : Option (Iobuf × State)) (off left : List ℕ) : Type 0 where
  pub part : Iobuf
  pub rest : Iobuf
  pub heap : Heap
  pub moved : List Ptr
  pub kept : List Ptr
  pub done : o ≡ some (part, (rest, heap))
  pub part_valid : IsValid part heap moved
  pub rest_valid : IsValid rest heap kept
  pub part_bytes : bytes heap moved ≡ off
  pub rest_bytes : bytes heap kept ≡ left

-- The clone of the first bytes of the first block is behind the other buffer's blocks.
pub split_head-Linked :
    (io buf : Iobuf) (h : Heap) (p : Ptr) (ps qs : List Ptr) (n : ℕ)
    → Halves io buf h (p ∷ ps) qs
    → n ≤ h.len p
    → block_bytes (cut n p h) h.top ≡ take n (block_bytes h p)
    → Linked buf (cut n p h) h.top qs
    → Parts
        (split_head n buf io h)
        (bytes h qs ++ take n (bytes h (p ∷ ps)))
        (drop n (bytes h (p ∷ ps)))
split_head-Linked io buf h p ps qs n t le first d =
    let g = relinked (cut n p h) d.next d.prev in
    let old : (q : Ptr) → has q (p ∷ ps) ≡ true → Agrees h (cut n p h) q =
      λ q m. let c = t.rest.blocks q m in Agrees-cut n p q h c.given in
    let older : (q : Ptr) → has q qs ≡ true → Agrees h (cut n p h) q =
      λ q m. let c = t.part.blocks q m in Agrees-cut n p q h c.given in
    let c : IsBlock h p = t.rest.blocks p (ground arith) in
    let out : has p qs ≡ false = t.apart p (ground arith) in
    let other : (q : Ptr) → has q (qs ++ (h.top ∷ [])) ≡ true → q ≢ p =
      λ q m e. ground (arith, c.given, out, has-append q qs (h.top ∷ [])) in
    let u : IsValid io (cut n p h) (p ∷ ps) =
      Agrees-IsValid (cut n p h) (cut-top n p h) old t.rest in
    let w : IsValid io g (p ∷ ps) =
      relinked-IsValid d.next d.prev u
        λ q m. let c = t.rest.blocks q m in d.others q (ground (arith, c.given, t.apart q)) in
    let b = u.blocks p (ground arith) in
    let a = old p (ground arith) in
    let same : bytes g (p ∷ ps) ≡ bytes h (p ∷ ps) =
      bytes-eq h g (p ∷ ps) λ q m. Agrees-block_bytes q (old q m) in
    let (rest, left) = trimmed-IsValid io g n p ps w (omega (arith, le, a.len)) in
    let off : bytes (trimmed n p g) (qs ++ (h.top ∷ [])) ≡ bytes g (qs ++ (h.top ∷ [])) =
      bytes-eq g (trimmed n p g) (qs ++ (h.top ∷ []))
        λ q m. Agrees-block_bytes q (Agrees-trimmed n p q g (other q m)) in
    record {
      part = d.whole;
      rest = record { total = sub64 io.total n; head = p };
      heap = trimmed n p g;
      moved = qs ++ (h.top ∷ []);
      kept = p ∷ ps;
      done =
          rw
            (
              t.rest.ring.0,
              trim_end-cut n p h,
              d.done,
              trim_start-trimmed n p g b.live (omega (arith, le, a.len)),
            )
            refl;
      part_valid =
          Agrees-IsValid (trimmed n p g) (omega arith) (λ q m. Agrees-trimmed n p q g (other q m))
            d.valid;
      rest_valid = rest;
      part_bytes =
          off
          ∙ bytes-append g qs (h.top ∷ [])
          ∙ rw
              (
                append-nil (block_bytes g h.top),
                take-append_lt n (block_bytes h p) (bytes h ps)
                    (omega (arith, le, length-block_bytes h p)),
              )
              (ap₂ ◌++◌ (bytes-eq h g qs λ q m. Agrees-block_bytes q (older q m)) first);
      rest_bytes = left ∙ ap (drop n) same;
    }

split_head_lem :
    (io buf : Iobuf) (h : Heap) (p : Ptr) (ps qs : List Ptr) (n : ℕ)
    → Halves io buf h (p ∷ ps) qs
    → n ≤ h.len p
    → Parts
        (split_head n buf io h)
        (bytes h qs ++ take n (bytes h (p ∷ ps)))
        (drop n (bytes h (p ∷ ps)))
split_head_lem io buf h p ps qs n t le =
    let b : IsBlock h p = t.rest.blocks p (ground arith) in
    let (a, first, size) =
      cut-IsApart n p b t.part le λ q m e. t.own p q (ground arith) m (sym e) in
    let w : IsValid buf (cut n p h) qs =
      Agrees-IsValid (cut n p h) (cut-top n p h)
        (λ q m. let c = t.part.blocks q m in Agrees-cut n p q h c.given) t.part in
    let same : bytes (cut n p h) qs ≡ bytes h qs =
      bytes-eq h (cut n p h) qs
        λ q m. let c = t.part.blocks q m in Agrees-block_bytes q (Agrees-cut n p q h c.given) in
    split_head-Linked io buf h p ps qs n t le first (
      append_block_lem buf (cut n p h) h.top qs w a
        (omega (arith, t.small, ap length same, length-bytes h p ps, size, le)))

split_loop_lem :
    (fuel n : ℕ) (io buf : Iobuf) (h : Heap) (ps qs : List Ptr)
    → Halves io buf h ps qs
    → length ps < fuel
    → Parts (split_loop fuel n buf io h) (bytes h qs ++ take n (bytes h ps)) (drop n (bytes h ps))
unfolding split_loop
split_loop_lem zero n io buf h ps qs t lt = absurd (omega arith)
split_loop_lem (suc fuel) zero io buf h ps qs t lt = record {
  part = buf;
  rest = io;
  heap = h;
  moved = qs;
  kept = ps;
  done = refl;
  part_valid = t.part;
  rest_valid = t.rest;
  part_bytes = sym (append-nil (bytes h qs));
  rest_bytes = refl;
}
split_loop_lem (suc fuel) (suc k) io buf h [] qs t lt = record {
  part = buf;
  rest = io;
  heap = h;
  moved = qs;
  kept = [];
  done =
      let stop : (suc k == 0 || io.head == 0) ≡ true = ground (arith, t.rest.ring) in rw stop refl;
  part_valid = t.part;
  rest_valid = t.rest;
  part_bytes = sym (append-nil (bytes h qs));
  rest_bytes = refl;
}
split_loop_lem (suc fuel) (suc k) io buf h (p ∷ ps) qs t lt =
    let b : IsBlock h p = t.rest.blocks p (ground arith) in
    let go_on : (suc k == 0 || io.head == 0) ≡ false =
      ground (arith, t.rest.ring, t.rest.not_null) in
    let live : h.live io.head ≡ true = ap h.live t.rest.ring.0 ∙ b.live in
    let at : h.len io.head ≡ h.len p = ap h.len t.rest.ring.0 in
    let size : length (block_bytes h p) ≡ h.len p = length-block_bytes h p in
    elim (Bool-cases (leb (h.len p) (suc k))) [
      | inl y ↦
          let m : Moved io buf h p ps qs = move_lem io buf h p ps qs t in
          let x =
            split_loop_lem fuel (suc k - h.len p) m.rest m.part m.heap ps (qs ++ (p ∷ [])) m.halves
              (omega (arith, lt)) in
          record {
            part = x.part;
            rest = x.rest;
            heap = x.heap;
            moved = x.moved;
            kept = x.kept;
            done = rw (go_on, live, at, y, m.done, m.linked) x.done;
            part_valid = x.part_valid;
            rest_valid = x.rest_valid;
            part_bytes =
                x.part_bytes
                ∙ rw
                    (
                      m.right,
                      m.left,
                      append_assoc (bytes h qs) (block_bytes h p)
                          (take (suc k - h.len p) (bytes h ps)),
                      take-append (suc k) (block_bytes h p) (bytes h ps) (ground (arith, size)),
                      size,
                    )
                    refl;
            rest_bytes =
                x.rest_bytes
                ∙ rw
                    (
                      m.left,
                      drop-append (suc k) (block_bytes h p) (bytes h ps) (ground (arith, size)),
                      size,
                    )
                    refl;
          }
      | inr z ↦
          let x = split_head_lem io buf h p ps qs (suc k) t (ground (arith, z)) in
          record {
            part = x.part;
            rest = x.rest;
            heap = x.heap;
            moved = x.moved;
            kept = x.kept;
            done = rw (go_on, live, ap (λ l. leb l (suc k)) at ∙ z) x.done;
            part_valid = x.part_valid;
            rest_valid = x.rest_valid;
            part_bytes = x.part_bytes;
            rest_bytes = x.rest_bytes;
          }
    ]

-- On enough rounds, `Split` of a valid buffer ends without a fault. The buffer that it returns holds
-- the first `n` bytes and the other those behind them, and both are valid.
pub split_refines :
    (fuel n : ℕ) (io : Iobuf) (h : Heap) (ps : List Ptr)
    → IsValid io h ps
    → length ps < fuel
    → Parts (split fuel n io h) (take n (bytes h ps)) (drop n (bytes h ps))
unfolding split
split_refines fuel n io h ps v lt =
    split_loop_lem fuel n io empty h ps []
      (record {
        rest = v;
        part = record {
          ring = refl;
          distinct = tt;
          not_null = refl;
          blocks = λ p m. cc;
          own = λ p q i j. cc;
          counted = refl;
          small = omega arith;
          positive = v.positive;
        };
        apart = λ p m. refl;
        own = λ p q i j. cc;
        small = omega (arith, v.small);
      })
      lt
