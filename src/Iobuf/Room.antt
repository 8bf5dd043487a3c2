-- ===== src/Iobuf/Room.antt =====
-- httpserver/iobuf.cc: `IOBuf::PreAllocate`.
use mathlib.Core.Path.{subst}
use cclab.Base.{
  ℕ, ◌+◌, ◌<◌, ◌≤◌, ◌≡◌, refl, sym, ◌∙◌, ap, inl, inr, true, false, ◌&&◌, some, List, [], ◌∷◌, ◌++◌,
  ◌==◌, if◌then◌else◌, ltb, length, length-append, append-nil, Bool-cases, arith,
}
use cclab.Base.Bytes.{copy_out}
use cclab.Base.Pointers.{Ptr, has}
use cclab.Base.Ring.{Seg-frame, Seg-prev, last_or, last-has}
use cclab.Iobuf.Heap.{Heap, block_capacity, new_block, space}
use cclab.Iobuf.Blocks.{Iobuf, pre_allocate}
use cclab.Iobuf.Scan.{block_bytes}
use cclab.Iobuf.Valid.{bytes, Ring, IsBlock, IsValid, bytes-append, bytes-eq, relinked}
use cclab.Iobuf.Link.{Linked, IsApart, append_block_lem}

pub last_or-snoc : (p : Ptr) (xs : List Ptr) (r : Ptr) → last_or p (xs ++ (r ∷ [])) ≡ r
last_or-snoc p [] r = refl
last_or-snoc p (q ∷ xs) r = last_or-snoc q xs r

pub snoc_form : (p : Ptr) (ps : List Ptr) → (xs : List Ptr) × (p ∷ ps ≡ xs ++ (last_or p ps ∷ []))
snoc_form p [] = ([], refl)
snoc_form p (q ∷ ps) = let (xs, e) = snoc_form q ps in (p ∷ xs, ap (λ (l : List Ptr). p ∷ l) e)

-- The rear block is the one before the head.
pub Ring-rear :
    (n v : Ptr → Ptr) (a : Ptr) (xs : List Ptr) (r : Ptr) → Ring n v a (xs ++ (r ∷ [])) → v a ≡ r
Ring-rear n v a [] r (e, s) = ap v e ∙ s.1
Ring-rear n v a (p ∷ xs) r (e, s) =
    ap v e ∙ Seg-prev n v p (xs ++ (r ∷ [])) p s ∙ last_or-snoc p xs r

pub Ring-frame :
    (n v n' v' : Ptr → Ptr) (a : Ptr) (ps : List Ptr)
    → ((p : Ptr) → has p ps ≡ true → (n' p ≡ n p) × (v' p ≡ v p))
    → Ring n v a ps
    → Ring n' v' a ps
Ring-frame n v n' v' a [] same r = r
Ring-frame n v n' v' a (p ∷ ps) same (e, s) =
    let (f, g) = same p (ground arith) in
    (e, Seg-frame n v n' v' p ps p f g (λ q m. same q (ground arith)) s)

-- A new block changes nothing at the blocks that are there.
pub new_block-IsValid :
    {io : Iobuf} {h : Heap} {ps : List Ptr} → IsValid io h ps → IsValid io (new_block h) ps
new_block-IsValid {io} {h} {ps} v =
    let old : (p : Ptr) → has p ps ≡ true → (p == h.top) ≡ false =
      λ p m. let b : IsBlock h p = v.blocks p m in ground (arith, b.given) in
    let same : bytes (new_block h) ps ≡ bytes h ps =
      bytes-eq h (new_block h) ps λ p m. rw (old p m) refl in
    record {
      ring =
          Ring-frame h.next h.prev (new_block h).next (new_block h).prev io.head ps
            (λ p m. rw (old p m) (refl, refl)) v.ring;
      distinct = v.distinct;
      not_null = v.not_null;
      blocks = λ p m.
          let b = v.blocks p m in
          record {
            live = ground (arith, old p m, b.live);
            held = ground (arith, old p m, b.held, b.memory);
            given = ground (arith, b.given);
            memory = ground (arith, old p m, b.memory);
            sized = ground (arith, old p m, b.sized);
            fits = ground (arith, old p m, b.fits);
          };
      own = λ p q i j e. v.own p q i j (ground (arith, old p i, old q j));
      counted = v.counted ∙ ap length (sym same);
      small = omega (arith, v.small, ap length same);
      positive = omega arith;
    }

pub new_block-IsApart :
    {io : Iobuf} {h : Heap} {ps : List Ptr} → IsValid io h ps → IsApart (new_block h) h.top ps
new_block-IsApart {io} {h} {ps} v =
    let old : (p : Ptr) → has p ps ≡ true → (p == h.top) ≡ false =
      λ p m. let b : IsBlock h p = v.blocks p m in ground (arith, b.given) in
    record {
      block = record {
        live = ground arith;
        held = ground arith;
        given = omega arith;
        memory = ground arith;
        sized = ground arith;
        fits = ground arith;
      };
      outside = elim (Bool-cases (has h.top ps)) [
        | inl y ↦ let f : (h.top == h.top) ≡ false = old h.top y in ground arith
        | inr z ↦ z
      ];
      not_null = omega (arith, v.positive);
      alone = (ground arith, ground arith);
      own = λ p m e. let b = v.blocks p m in ground (arith, old p m, b.memory);
    }

-- The room behind the bytes of a buffer: that of its rear block, or a whole new block.
abbrev pub room_behind : Iobuf → Heap → ℕ
room_behind io h =
    if io.head == 0
    then block_capacity
    else if ltb 0 (space (h.prev io.head) h)
    then space (h.prev io.head) h
    else block_capacity

-- What `PreAllocate` leaves: the memory behind the bytes of the rear block `rear`.
pub record Room (io : Iobuf) (h : Heap) (ps : List Ptr) : Type 0 where
  pub whole : Iobuf
  pub heap : Heap
  pub front : List Ptr
  pub rear : Ptr
  pub room : ℕ
  pub done :
      pre_allocate io h
      ≡ some ((heap.buffer rear, heap.start rear + heap.len rear, room), (whole, heap))
  pub valid : IsValid whole heap (front ++ (rear ∷ []))
  pub same : bytes heap (front ++ (rear ∷ [])) ≡ bytes h ps
  pub few : length front ≤ length ps
  pub amount : room ≡ room_behind io h
  pub positive : 0 < room
  pub inside : heap.start rear + heap.len rear + room ≡ block_capacity

new_block-bytes :
    {io : Iobuf} {h : Heap} {ps : List Ptr} → IsValid io h ps → bytes (new_block h) ps ≡ bytes h ps
new_block-bytes {io} {h} {ps} v = bytes-eq h (new_block h) ps λ p m.
    let b : IsBlock h p = v.blocks p m in
    let e : (p == h.top) ≡ false = ground (arith, b.given) in rw e refl

new_block-no_bytes : (h : Heap) → block_bytes (new_block h) h.top ≡ []
unfolding copy_out
new_block-no_bytes h = let e : (new_block h).len h.top ≡ 0 = ground arith in rw e refl

-- A new block behind the others.
Linked-Room :
    (io : Iobuf) (h : Heap) (ps : List Ptr)
    → IsValid io h ps
    → Linked io (new_block h) h.top ps
    → (io.head == 0) ≡ false
    → h.live io.head && h.live (h.prev io.head) ≡ true
    → ltb 0 (space (h.prev io.head) h) ≡ false
    → Room io h ps
unfolding pre_allocate
Linked-Room io h ps v d some_head live full =
    let g = relinked (new_block h) d.next d.prev in
    let at_start : (new_block h).start h.top + (new_block h).len h.top ≡ 0 = ground arith in
    let cap : (new_block h).cap h.top ≡ block_capacity = ground arith in
    record {
      whole = d.whole;
      heap = g;
      front = ps;
      rear = h.top;
      room = block_capacity;
      done = rw (some_head, live, full, d.done, at_start, cap) refl;
      valid = d.valid;
      same =
          bytes-append g ps (h.top ∷ [])
          ∙ rw (new_block-no_bytes h, append-nil (bytes g ps))
              (bytes-eq (new_block h) g ps (λ p m. refl) ∙ new_block-bytes v);
      few = omega arith;
      amount = rw (some_head, full) refl;
      positive = omega arith;
      inside = ground arith;
    }

-- The room behind the bytes of the rear block.
rear-Room :
    (io : Iobuf) (h : Heap) (p : Ptr) (ps : List Ptr)
    → IsValid io h (p ∷ ps)
    → ltb 0 (space (h.prev io.head) h) ≡ true
    → Room io h (p ∷ ps)
unfolding pre_allocate
rear-Room io h p ps v some_space =
    let (front, e) = snoc_form p ps in
    let rear = last_or p ps in
    let at : h.prev io.head ≡ rear = ap h.prev v.ring.0 ∙ Seg-prev h.next h.prev p ps p v.ring.1 in
    let some_head : (io.head == 0) ≡ false = ground (arith, v.ring, v.not_null) in
    let b : IsBlock h rear = v.blocks rear (last-has p ps) in
    let c : IsBlock h p = v.blocks p (ground arith) in
    let live : (h.live io.head && h.live (h.prev io.head)) ≡ true =
      ground (arith, v.ring, at, b.live, c.live) in
    let fits : h.start rear + h.len rear + space rear h ≡ block_capacity =
      omega (arith, b.fits, b.sized) in
    record {
      whole = io;
      heap = h;
      front = front;
      rear = rear;
      room = space rear h;
      done = rw (some_head, live, some_space, at) refl;
      valid = subst (IsValid io h) e v;
      same = ap (bytes h) (sym e);
      few = omega (arith, ap length e, length-append front (rear ∷ []));
      amount = rw (some_head, some_space, at) refl;
      positive = ground (arith, at, some_space);
      inside = fits;
    }

first-Room : (io : Iobuf) (h : Heap) → IsValid io h [] → Room io h []
unfolding pre_allocate
first-Room io h v =
    let a = new_block-IsApart v in
    let none_yet : bytes (new_block h) (h.top ∷ []) ≡ [] = rw (new_block-no_bytes h) refl in
    record {
      whole = record io { head = h.top };
      heap = new_block h;
      front = [];
      rear = h.top;
      room = block_capacity;
      done =
          let e : (io.head == 0) ≡ true = ground (arith, v.ring) in
          let at_start : (new_block h).start h.top + (new_block h).len h.top ≡ 0 = ground arith in
          let cap : (new_block h).cap h.top ≡ block_capacity = ground arith in
          rw (e, at_start, cap) refl;
      valid = record {
        ring = (refl, a.alone);
        distinct = (refl, tt);
        not_null = ground (arith, a.not_null);
        blocks = λ p m. let e : p ≡ h.top = ground arith in rw e a.block;
        own = λ p q i j e. ground arith;
        counted = v.counted ∙ ap length (sym none_yet);
        small = omega (arith, ap length none_yet);
        positive = omega arith;
      };
      same = none_yet;
      few = omega arith;
      amount = let e : (io.head == 0) ≡ true = ground (arith, v.ring) in rw e refl;
      positive = omega arith;
      inside = ground arith;
    }

-- `PreAllocate` of a valid buffer gives the memory behind its bytes.
pub pre_allocate_lem : (io : Iobuf) (h : Heap) (ps : List Ptr) → IsValid io h ps → Room io h ps
pre_allocate_lem io h [] v = first-Room io h v
pre_allocate_lem io h (p ∷ ps) v =
    let at : h.prev io.head ≡ last_or p ps =
      ap h.prev v.ring.0 ∙ Seg-prev h.next h.prev p ps p v.ring.1 in
    let some_head : (io.head == 0) ≡ false = ground (arith, v.ring, v.not_null) in
    let b : IsBlock h (last_or p ps) = v.blocks (last_or p ps) (last-has p ps) in
    let c : IsBlock h p = v.blocks p (ground arith) in
    let live : (h.live io.head && h.live (h.prev io.head)) ≡ true =
      ground (arith, v.ring, at, b.live, c.live) in
    elim (Bool-cases (ltb 0 (space (h.prev io.head) h))) [
      | inl y ↦ rear-Room io h p ps v y
      | inr z ↦
          let none_yet : (new_block h).len h.top ≡ 0 = ground arith in
          let w : IsValid io (new_block h) (p ∷ ps) = new_block-IsValid v in
          let d =
            append_block_lem io (new_block h) h.top (p ∷ ps) w (new_block-IsApart v)
              (omega (arith, w.small, none_yet)) in
          Linked-Room io h (p ∷ ps) v d some_head live z
    ]
