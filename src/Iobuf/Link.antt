-- ===== src/Iobuf/Link.antt =====
-- httpserver/iobuf.cc: `IOBuf::Pop`, and `IOBuf::Append` of a block.
use cclab.Base.{
  ◌+◌, ◌<◌, ◌≡◌, refl, ◌∙◌, ap, ◌≢◌, true, false, ◌&&◌, some, List, [], ◌∷◌, ◌++◌, ◌==◌, length,
  length-append, arith, inl, inr, Bool-cases, ◌%◌,
}
use cclab.Base.Pointers.{Ptr, update, has, has-append, Distinct-append}
use cclab.Base.Ring.{
  Seg, Seg-frame, Seg-prev, Seg-last, last_or, last-has, next-Seg, back-Seg, back_next, back_prev,
}
use cclab.Iobuf.Heap.{Heap, word, sub64}
use cclab.Iobuf.Blocks.{Iobuf, pop, append_block}
use cclab.Iobuf.Valid.{
  bytes, IsBlock, IsValid, length-bytes, bytes-append, bytes-eq, relinked, IsBlock-relinked,
}

-- The links after `Pop`.
abbrev pub popped_next : Heap → Ptr → Ptr → Ptr
popped_next h a = update (update h.next (h.prev a) (h.next a)) a a

abbrev pub popped_prev : Heap → Ptr → Ptr → Ptr
popped_prev h a = update (update h.prev (h.next a) (h.prev a)) a a

-- What `Pop` leaves: the buffer without its first block `p`, which is a ring of its own.
pub record Popped (io : Iobuf) (h : Heap) (p : Ptr) (ps : List Ptr) : Type 0 where
  pub rest : Iobuf
  pub next : Ptr → Ptr
  pub prev : Ptr → Ptr
  pub done : pop io h ≡ some (p, rest, relinked h next prev)
  pub valid : IsValid rest (relinked h next prev) ps
  pub alone : (next p ≡ p) × (prev p ≡ p)
  pub others : (q : Ptr) → has q (p ∷ ps) ≡ false → (next q ≡ h.next q) × (prev q ≡ h.prev q)

pub pop_lem :
    (io : Iobuf) (h : Heap) (p : Ptr) (ps : List Ptr) → IsValid io h (p ∷ ps) → Popped io h p ps
unfolding pop
pop_lem io h p [] v =
    let b : IsBlock h p = v.blocks p (ground arith) in
    let total : sub64 io.total (h.len p) ≡ 0 =
      omega (arith, v.counted, v.small, length-bytes h p []) in
    record {
      rest = record { total = sub64 io.total (h.len p); head = 0 };
      next = h.next;
      prev = h.prev;
      done = ground (arith, v.ring, v.not_null, b.live);
      valid = record {
        ring = refl;
        distinct = tt;
        not_null = refl;
        blocks = λ q m. cc;
        own = λ q r m. cc;
        counted = total;
        small = omega arith;
        positive = v.positive;
      };
      alone = v.ring.1;
      others = λ q m. (refl, refl);
    }
pop_lem io h p (q ∷ ps) v =
    let b : IsBlock h p = v.blocks p (ground arith) in
    let n = popped_next h p in
    let w = popped_prev h p in
    let rear : h.prev p ≡ last_or q ps = Seg-prev h.next h.prev p (q ∷ ps) p v.ring.1 in
    let mem : has (last_or q ps) (q ∷ ps) ≡ true = last-has q ps in
    let br : IsBlock h (last_or q ps) = v.blocks (last_or q ps) (ground arith) in
    let bq : IsBlock h q = v.blocks q (ground arith) in
    let next : h.next p ≡ q = v.ring.1.0 in
    let total : sub64 io.total (h.len p) ≡ length (bytes h (q ∷ ps)) =
      omega (arith, v.counted, v.small, length-bytes h p (q ∷ ps)) in
    let inner : Seg (update h.next (h.prev p) q) (update h.prev q (h.prev p)) q ps q =
      next-Seg h.next h.prev p q ps v.distinct v.ring.1 in
    record {
      rest = record { total = sub64 io.total (h.len p); head = q };
      next = n;
      prev = w;
      done =
          let some_head : (p == 0) ≡ false = ground (arith, v.not_null) in
          let other : (h.prev p == p) ≡ false = ground (arith, v.distinct) in
          let near : (h.live (h.prev p) && h.live (h.next p)) ≡ true =
            ground (arith, rear, next, br.live, bq.live) in
          rw (v.ring.0, some_head, b.live, other, near, next) refl;
      valid = record {
        ring = (
          refl,
          Seg-frame (update h.next (h.prev p) q) (update h.prev q (h.prev p)) n w q ps q
              (ground (arith, v.distinct)) (ground (arith, v.distinct))
              (λ r m. ground (arith, v.distinct)) inner,
        );
        distinct = v.distinct.1;
        not_null = ground (arith, v.not_null);
        blocks = λ r m. IsBlock-relinked n w (v.blocks r (ground arith));
        own = λ r s i j. v.own r s (ground arith) (ground arith);
        counted = total ∙ ap length (bytes-eq (relinked h n w) h (q ∷ ps) λ r m. refl);
        small = omega (arith, v.small, length-bytes h p (q ∷ ps));
        positive = v.positive;
      };
      alone = (ground arith, ground arith);
      others = λ r m. ground (arith, rear, mem);
    }

-- A block outside the buffer, in a ring of its own, with memory of its own.
pub record IsApart (h : Heap) (b : Ptr) (ps : List Ptr) : Type 0 where
  pub block : IsBlock h b
  pub outside : has b ps ≡ false
  pub not_null : b ≢ 0
  pub alone : (h.next b ≡ b) × (h.prev b ≡ b)
  pub own : (p : Ptr) → has p ps ≡ true → h.buffer p ≢ h.buffer b

-- What `Append` of a block leaves: the buffer with the block behind the others.
pub record Linked (io : Iobuf) (h : Heap) (b : Ptr) (ps : List Ptr) : Type 0 where
  pub whole : Iobuf
  pub next : Ptr → Ptr
  pub prev : Ptr → Ptr
  pub done : append_block b io h ≡ some (whole, relinked h next prev)
  pub valid : IsValid whole (relinked h next prev) (ps ++ (b ∷ []))
  pub others : (q : Ptr) → has q (b ∷ ps) ≡ false → (next q ≡ h.next q) × (prev q ≡ h.prev q)

pub snoc-own :
    (h : Heap) (b : Ptr) (ps : List Ptr)
    → IsApart h b ps
    → ((p q : Ptr) → has p ps ≡ true → has q ps ≡ true → h.buffer p ≡ h.buffer q → p ≡ q)
    → (p q : Ptr) → has p (ps ++ (b ∷ [])) ≡ true
    → has q (ps ++ (b ∷ [])) ≡ true
    → h.buffer p ≡ h.buffer q
    → p ≡ q
snoc-own h b ps x own p q i j e =
    ground (arith, has-append p ps (b ∷ []), has-append q ps (b ∷ []), own p q, x.own p, x.own q)

pub snoc-blocks :
    (h : Heap) (b : Ptr) (ps : List Ptr) (n v : Ptr → Ptr)
    → IsBlock h b
    → ((p : Ptr) → has p ps ≡ true → IsBlock h p)
    → (p : Ptr) → has p (ps ++ (b ∷ [])) ≡ true
    → IsBlock (relinked h n v) p
snoc-blocks h b ps n v x blocks p i = elim (Bool-cases (p == b)) [
  | inl y ↦ let e : p ≡ b = ground arith in rw e (IsBlock-relinked n v x)
  | inr z ↦ IsBlock-relinked n v (blocks p (ground (arith, has-append p ps (b ∷ []))))
]

pub length-snoc :
    (h : Heap) (b : Ptr) (ps : List Ptr)
    → length (bytes h (ps ++ (b ∷ []))) ≡ length (bytes h ps) + h.len b
length-snoc h b ps =
    ap length (bytes-append h ps (b ∷ []))
    ∙ length-append (bytes h ps) (bytes h (b ∷ []))
    ∙ omega (arith, length-bytes h b [])

pub append_block_lem :
    (io : Iobuf) (h : Heap) (b : Ptr) (ps : List Ptr)
    → IsValid io h ps
    → IsApart h b ps
    → length (bytes h ps) + h.len b < word
    → Linked io h b ps
unfolding append_block
append_block_lem io h b [] v x room = record {
  whole = record { total = (io.total + h.len b) % word; head = b };
  next = h.next;
  prev = h.prev;
  done = ground (arith, v.ring);
  valid = record {
    ring = (refl, x.alone);
    distinct = (refl, tt);
    not_null = ground (arith, x.not_null);
    blocks = snoc-blocks h b [] h.next h.prev x.block v.blocks;
    own = snoc-own h b [] x v.own;
    counted = omega (arith, v.counted, length-bytes h b [], room);
    small = omega (arith, length-bytes h b [], room);
    positive = v.positive;
  };
  others = λ q m. (refl, refl);
}
append_block_lem io h b (p ∷ ps) v x room =
    let n = back_next h.next h.prev p b in
    let w = back_prev h.next h.prev p b in
    let rear : h.prev p ≡ last_or p ps = Seg-prev h.next h.prev p ps p v.ring.1 in
    let back : h.next (last_or p ps) ≡ p = Seg-last h.next h.prev p ps p v.ring.1 in
    let mem : has (last_or p ps) (p ∷ ps) ≡ true = last-has p ps in
    let bp : IsBlock h p = v.blocks p (ground arith) in
    let br : IsBlock h (last_or p ps) = v.blocks (last_or p ps) mem in
    record {
      whole = record { total = (io.total + h.len b) % word; head = p };
      next = n;
      prev = w;
      done =
          let some_head : (p == 0) ≡ false = ground (arith, v.not_null) in
          let near : (h.live p && (h.live (h.prev p) && h.live (h.next (h.prev p)))) ≡ true =
            ground (arith, rear, back, bp.live, br.live) in
          rw (v.ring.0, some_head, near) refl;
      valid = record {
        ring = (refl, back-Seg h.next h.prev p ps b v.distinct x.outside v.ring.1);
        distinct = Distinct-append (p ∷ ps) b v.distinct x.outside;
        not_null = ground (arith, has-append 0 (p ∷ ps) (b ∷ []), v.not_null, x.not_null);
        blocks = snoc-blocks h b (p ∷ ps) n w x.block v.blocks;
        own = snoc-own h b (p ∷ ps) x v.own;
        counted =
            omega (arith, v.counted, length-snoc h b (p ∷ ps), room)
            ∙ ap length (bytes-eq (relinked h n w) h ((p ∷ ps) ++ (b ∷ [])) λ r m. refl);
        small = omega (
          arith,
          room,
          length-snoc h b (p ∷ ps),
          ap length (bytes-eq (relinked h n w) h ((p ∷ ps) ++ (b ∷ [])) λ r m. refl),
        );
        positive = v.positive;
      };
      others = λ r m. ground (arith, rear, back, mem);
    }
