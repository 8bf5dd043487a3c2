-- ===== src/Iobuf/Move.antt =====
-- httpserver/iobuf.cc: `IOBuf::Split`, where whole blocks move to the other buffer.
use cclab.Base.{
  ◌+◌, ◌<◌, ◌≡◌, refl, sym, ◌∙◌, ap, ◌≢◌, inl, inr, true, false, some, List, [], ◌∷◌, ◌++◌, length,
  length-append, append-nil, Bool-cases, arith,
}
use cclab.Base.Pointers.{Ptr, has, has-append}
use cclab.Iobuf.Heap.{Heap, word}
use cclab.Iobuf.Blocks.{Iobuf, pop, append_block}
use cclab.Iobuf.Scan.{block_bytes}
use cclab.Iobuf.Valid.{
  bytes, IsValid, length-bytes, length-block_bytes, bytes-append, bytes-eq, relinked,
  IsBlock-relinked,
}
use cclab.Iobuf.Link.{Popped, pop_lem, IsApart, Linked, append_block_lem}
use cclab.Iobuf.Room.{Ring-frame}

-- Links that agree at the blocks of a buffer leave it as it is.
pub relinked-IsValid :
    {io : Iobuf} {h : Heap} {ps : List Ptr} (n v : Ptr → Ptr)
    → IsValid io h ps
    → ((p : Ptr) → has p ps ≡ true → (n p ≡ h.next p) × (v p ≡ h.prev p))
    → IsValid io (relinked h n v) ps
relinked-IsValid {io} {h} {ps} n v w same = record {
  ring = Ring-frame h.next h.prev n v io.head ps same w.ring;
  distinct = w.distinct;
  not_null = w.not_null;
  blocks = λ p m. IsBlock-relinked n v (w.blocks p m);
  own = w.own;
  counted = w.counted ∙ ap length (bytes-eq (relinked h n v) h ps λ p m. refl);
  small = omega (arith, w.small, ap length (bytes-eq (relinked h n v) h ps λ p m. refl));
  positive = w.positive;
}

-- Two buffers, which share neither blocks nor memory.
pub record Halves (io buf : Iobuf) (h : Heap) (ps qs : List Ptr) : Type 0 where
  pub rest : IsValid io h ps
  pub part : IsValid buf h qs
  pub apart : (p : Ptr) → has p ps ≡ true → has p qs ≡ false
  pub own : (p q : Ptr) → has p ps ≡ true → has q qs ≡ true → h.buffer p ≢ h.buffer q
  pub small : length (bytes h qs) + length (bytes h ps) < word

-- The first block moves behind the others of the second buffer.
pub record Moved (io buf : Iobuf) (h : Heap) (p : Ptr) (ps qs : List Ptr) : Type 0 where
  pub rest : Iobuf
  pub popped : Heap
  pub part : Iobuf
  pub heap : Heap
  pub done : pop io h ≡ some (p, rest, popped)
  pub linked : append_block p buf popped ≡ some (part, heap)
  pub halves : Halves rest part heap ps (qs ++ (p ∷ []))
  pub left : bytes heap ps ≡ bytes h ps
  pub right : bytes heap (qs ++ (p ∷ [])) ≡ bytes h qs ++ block_bytes h p

move_Linked :
    (io buf : Iobuf) (h : Heap) (p : Ptr) (ps qs : List Ptr)
    → Halves io buf h (p ∷ ps) qs
    → (x : Popped io h p ps) → Linked buf (relinked h x.next x.prev) p qs
    → Moved io buf h p ps qs
move_Linked io buf h p ps qs t x d =
    let g = relinked h d.next d.prev in
    let right : bytes g (qs ++ (p ∷ [])) ≡ bytes h qs ++ block_bytes h p =
      bytes-append g qs (p ∷ [])
      ∙ rw (append-nil (block_bytes h p))
          (ap (λ l. l ++ block_bytes h p) (bytes-eq h g qs λ q m. refl)) in
    let left : bytes g ps ≡ bytes h ps = bytes-eq h g ps λ q m. refl in
    record {
      rest = x.rest;
      popped = relinked h x.next x.prev;
      part = d.whole;
      heap = g;
      done = x.done;
      linked = d.done;
      halves = record {
        rest =
            relinked-IsValid d.next d.prev x.valid
              λ q m. d.others q (ground (arith, t.apart q, t.rest.distinct.0));
        part = d.valid;
        apart = λ q m. ground (arith, t.apart q, t.rest.distinct.0, has-append q qs (p ∷ []));
        own = λ q r i j e. elim (Bool-cases (has r qs)) [
          | inl y ↦ t.own q r (ground arith) y e
          | inr z ↦
              let f : r ≡ p = ground (arith, has-append r qs (p ∷ [])) in
              let g : q ≡ p = t.rest.own q p (ground arith) (ground arith) (e ∙ ap h.buffer f) in
              ground (arith, t.rest.distinct.0)
        ];
        small = omega (
          arith,
          t.small,
          length-bytes h p ps,
          ap length left,
          ap length right,
          length-append (bytes h qs) (block_bytes h p),
          length-block_bytes h p,
        );
      };
      left = left;
      right = right;
    }

pub move_lem :
    (io buf : Iobuf) (h : Heap) (p : Ptr) (ps qs : List Ptr)
    → Halves io buf h (p ∷ ps) qs
    → Moved io buf h p ps qs
move_lem io buf h p ps qs t =
    let x : Popped io h p ps = pop_lem io h p ps t.rest in
    let g = relinked h x.next x.prev in
    let w : IsValid buf g qs =
      relinked-IsValid x.next x.prev t.part λ q m. x.others q (ground (arith, t.apart q)) in
    let a : IsApart g p qs = record {
      block = IsBlock-relinked x.next x.prev (t.rest.blocks p (ground arith));
      outside = t.apart p (ground arith);
      not_null = ground (arith, t.rest.not_null);
      alone = x.alone;
      own = λ q m e. t.own p q (ground arith) m (sym e);
    } in
    let same : bytes g qs ≡ bytes h qs = bytes-eq h g qs λ q m. refl in
    move_Linked io buf h p ps qs t x (
      append_block_lem buf g p qs w a (omega (arith, t.small, ap length same, length-bytes h p ps)))
