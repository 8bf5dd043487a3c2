-- ===== src/Iobuf/TrimEnd.antt =====
-- httpserver/iobuf.cc: `IOBuf::TrimEnd`.
use cclab.Base.{
  ℕ, zero, suc, ◌+◌, ◌-◌, ◌<◌, ◌≤◌, ◌≡◌, refl, sym, ◌∙◌, ap, inl, inr, true, false, ◌&&◌, ◌||◌,
  some, List, [], ◌∷◌, ◌++◌, ◌==◌, ltb, leb, length, length-append, take, length-take, take-append,
  take-append_lt, take_all, append-nil, Bool-cases, arith,
}
use mathlib.Core.Path.{subst}
use cclab.Base.Bytes.{take-copy_out}
use cclab.Base.Pointers.{Ptr, update, has, has-append, Distinct-parts}
use cclab.Base.Ring.{
  Seg, Seg-split, Seg-prev, last_or, last-has, unlink_parts, unlink_next, unlink_prev,
}
use cclab.Iobuf.Heap.{Heap, sub64, block_trim_end}
use cclab.Iobuf.Blocks.{Iobuf, remove_rear, unlink_rear}
use cclab.Iobuf.Ops.{trim_end}
use cclab.Iobuf.Scan.{block_bytes}
use cclab.Iobuf.Valid.{
  bytes, IsBlock, IsValid, length-block_bytes, bytes-append, bytes-eq, IsBlock-relinked,
}
use cclab.Iobuf.Link.{length-snoc}
use cclab.Iobuf.Room.{snoc_form, Ring-rear}
use cclab.Iobuf.Trim.{deleted, delete_block-deleted, deleted-IsValid}

-- The last block goes, and its memory with it.
pub record Shortened (io : Iobuf) (h : Heap) (ps : List Ptr) (r : Ptr) : Type 0 where
  pub rest : Iobuf
  pub heap : Heap
  pub done : remove_rear io h ≡ some (rest, heap)
  pub valid : IsValid rest heap ps
  pub same : bytes heap ps ≡ bytes h ps
  pub gone : heap.live r ≡ false

remove_only : (io : Iobuf) (h : Heap) (r : Ptr) → IsValid io h (r ∷ []) → Shortened io h [] r
unfolding remove_rear
remove_only io h r v =
    let b : IsBlock h r = v.blocks r (ground arith) in
    let at : h.prev io.head ≡ r = ap h.prev v.ring.0 ∙ v.ring.1.1 in
    let live : (h.live io.head && h.live r) ≡ true = ground (arith, v.ring, b.live) in
    let only : (r == io.head) ≡ true = ground (arith, v.ring) in
    let total : sub64 io.total (h.len r) ≡ 0 =
      omega (arith, v.counted, v.small, length-snoc h r []) in
    record {
      rest = record { total = sub64 io.total (h.len r); head = 0 };
      heap = deleted r h;
      done = rw (at, live, only, delete_block-deleted b) refl;
      valid = record {
        ring = refl;
        distinct = tt;
        not_null = refl;
        blocks = λ q m. cc;
        own = λ q s m. cc;
        counted = total;
        small = omega arith;
        positive = v.positive;
      };
      same = refl;
      gone = ground arith;
    }

remove_last :
    (io : Iobuf) (h : Heap) (p : Ptr) (ps : List Ptr) (r : Ptr)
    → IsValid io h (p ∷ (ps ++ (r ∷ [])))
    → Shortened io h (p ∷ ps) r
unfolding remove_rear
remove_last io h p ps r v =
    let all = p ∷ (ps ++ (r ∷ [])) in
    let (distinct, one, apart) = Distinct-parts (p ∷ ps) (r ∷ []) v.distinct in
    let (before, after) = Seg-split h.next h.prev p ps r [] p v.ring.1 in
    let at : h.prev io.head ≡ r = Ring-rear h.next h.prev io.head (p ∷ ps) r v.ring in
    let rear : has r all ≡ true = ground (arith, has-append r (p ∷ ps) (r ∷ [])) in
    let inner : (q : Ptr) → has q (p ∷ ps) ≡ true → has q all ≡ true =
      λ q m. ground (arith, has-append q (p ∷ ps) (r ∷ [])) in
    let out : has r (p ∷ ps) ≡ false = elim (Bool-cases (has r (p ∷ ps))) [
      | inl y ↦ let f : has r (r ∷ []) ≡ false = apart r y in ground arith
      | inr z ↦ z
    ] in
    let prev : h.prev r ≡ last_or p ps = Seg-prev h.next h.prev p ps r before in
    let b : IsBlock h r = v.blocks r rear in
    let bp : IsBlock h p = v.blocks p (inner p (ground arith)) in
    let bl : IsBlock h (last_or p ps) =
      v.blocks (last_or p ps) (inner (last_or p ps) (last-has p ps)) in
    let live : (h.live io.head && h.live r) ≡ true = ground (arith, v.ring.0, bp.live, b.live) in
    let other : (r == io.head) ≡ false = ground (arith, v.ring.0, out) in
    let near : (h.live (h.prev r) && h.live (h.next r)) ≡ true =
      ground (arith, prev, after.0, bl.live, bp.live) in
    let g = unlink_rear r h in
    let size : length (bytes h all) ≡ length (bytes h (p ∷ ps)) + h.len r =
      length-snoc h r (p ∷ ps) in
    let w : IsValid (record io { total = sub64 io.total (h.len r) }) g (p ∷ ps) = record {
      ring = (
        v.ring.0,
        subst (λ l. Seg (unlink_next h.next h.prev r) (unlink_prev h.next h.prev r) p l p)
            (append-nil ps) (unlink_parts h.next h.prev p ps r [] v.distinct v.ring.1),
      );
      distinct = distinct;
      not_null = ground (arith, v.not_null, has-append 0 (p ∷ ps) (r ∷ []));
      blocks = λ q m.
          IsBlock-relinked (unlink_next h.next h.prev r) (unlink_prev h.next h.prev r)
            (v.blocks q (inner q m));
      own = λ q s i j. v.own q s (inner q i) (inner s j);
      counted =
          omega (arith, v.counted, v.small, size) ∙ ap length (bytes-eq g h (p ∷ ps) λ q m. refl);
      small = omega (arith, v.small, size, ap length (bytes-eq h g (p ∷ ps) λ q m. refl));
      positive = v.positive;
    } in
    let c : IsBlock g r =
      IsBlock-relinked (unlink_next h.next h.prev r) (unlink_prev h.next h.prev r) b in
    record {
      rest = record io { total = sub64 io.total (h.len r) };
      heap = deleted r g;
      done = rw (at, live, other, near, delete_block-deleted c) refl;
      valid = deleted-IsValid r (p ∷ ps) w out λ q m e.
          let f : q ≡ r = v.own q r (inner q m) rear e in
          let k : has r (p ∷ ps) ≡ true = ap (λ t. has t (p ∷ ps)) (sym f) ∙ m in cc;
      same = bytes-eq h (deleted r g) (p ∷ ps) λ q m. refl;
      gone = ground arith;
    }

remove_rear_lem :
    (io : Iobuf) (h : Heap) (ps : List Ptr) (r : Ptr)
    → IsValid io h (ps ++ (r ∷ []))
    → Shortened io h ps r
remove_rear_lem io h [] r v = remove_only io h r v
remove_rear_lem io h (p ∷ ps) r v = remove_last io h p ps r v

-- The last bytes of the last block are trimmed.
abbrev pub cut_end : ℕ → Ptr → Heap → Heap
cut_end n r h = record h { len = update h.len r (h.len r - n) }

cut_end-IsValid :
    (io : Iobuf) (h : Heap) (n : ℕ) (ps : List Ptr) (r : Ptr)
    → IsValid io h (ps ++ (r ∷ []))
    → n ≤ h.len r
    → IsValid (record io { total = sub64 io.total n }) (cut_end n r h) (ps ++ (r ∷ []))
      × (bytes (cut_end n r h) (ps ++ (r ∷ []))
          ≡ take (length (bytes h (ps ++ (r ∷ []))) - n) (bytes h (ps ++ (r ∷ []))))
cut_end-IsValid io h n ps r v le =
    let (distinct, one, apart) = Distinct-parts ps (r ∷ []) v.distinct in
    let all = ps ++ (r ∷ []) in
    let before : bytes (cut_end n r h) ps ≡ bytes h ps =
      bytes-eq h (cut_end n r h) ps
        λ q m. let e : (q == r) ≡ false = ground (arith, apart q m) in rw e refl in
    let self : (r == r) ≡ true = ground arith in
    let last : block_bytes (cut_end n r h) r ≡ take (h.len r - n) (block_bytes h r) = rw self (
      sym (
        take-copy_out (h.content (h.buffer r)) (h.start r) (h.len r) (h.len r - n)
          (omega arith))) in
    let size : length (bytes h all) ≡ length (bytes h ps) + h.len r = length-snoc h r ps in
    let same : bytes (cut_end n r h) all ≡ take (length (bytes h all) - n) (bytes h all) =
      let enough : length (bytes h ps) ≤ length (bytes h all) - n = omega (arith, size, le) in
      let left : length (bytes h all) - n - length (bytes h ps) ≡ h.len r - n =
        omega (arith, size, le) in
      rw
        (
          bytes-append (cut_end n r h) ps (r ∷ []),
          before,
          last,
          append-nil (take (h.len r - n) (block_bytes h r)),
        )
        (sym (
          ap (take (length (bytes h all) - n)) (bytes-append h ps (r ∷ []))
          ∙ take-append (length (bytes h all) - n) (bytes h ps) (bytes h (r ∷ [])) enough
          ∙ rw (append-nil (block_bytes h r), left) refl)) in
    let less : length (bytes (cut_end n r h) all) ≡ length (bytes h all) - n =
      ap length same ∙ length-take (length (bytes h all) - n) (bytes h all) ∙ omega arith in
    (
      record {
        ring = v.ring;
        distinct = v.distinct;
        not_null = v.not_null;
        blocks = λ q m.
            let c = v.blocks q m in
            record {
              live = c.live;
              held = c.held;
              given = c.given;
              memory = c.memory;
              sized = c.sized;
              fits = ground (arith, c.fits);
            };
        own = v.own;
        counted = omega (arith, v.counted, v.small, less, size, le);
        small = omega (arith, v.small, less);
        positive = v.positive;
      },
      same,
    )

trim_end-cut_end :
    (n : ℕ) (r : Ptr) (h : Heap)
    → h.live r ≡ true
    → n ≤ h.len r
    → block_trim_end n r h ≡ some (cut_end n r h)
unfolding block_trim_end
trim_end-cut_end n r h live le = let e : leb n (h.len r) ≡ true = ground arith in rw (live, e) refl

-- The bytes of a list that goes on after `xs` and the block's bytes `ys`, without the last `amount`.
take-shorter :
    (xs ys : List ℕ) (amount : ℕ)
    → length ys ≤ amount
    → take (length (xs ++ ys) - amount) (xs ++ ys) ≡ take (length xs - (amount - length ys)) xs
take-shorter xs ys amount le =
    let e : length (xs ++ ys) - amount ≡ length xs - (amount - length ys) =
      omega (arith, length-append xs ys, le) in
    rw e (take-append_lt (length xs - (amount - length ys)) xs ys (omega arith))

-- On more rounds than it has blocks, `TrimEnd` of a valid buffer ends without a fault and leaves a valid
-- buffer, which holds the bytes before the last `amount`.
pub trim_end_refines :
    (fuel amount : ℕ) (io : Iobuf) (h : Heap) (ps : List Ptr)
    → IsValid io h ps
    → length ps < fuel
    → (io' : Iobuf) × (h' : Heap) × (ps' : List Ptr) × (trim_end fuel amount io h ≡ some (io', h'))
      × IsValid io' h' ps'
      × (bytes h' ps' ≡ take (length (bytes h ps) - amount) (bytes h ps))
unfolding trim_end
trim_end_refines zero amount io h ps v lt = absurd (omega arith)
trim_end_refines (suc fuel) zero io h ps v lt =
    (io, h, ps, refl, v, sym (take_all (length (bytes h ps) - 0) (bytes h ps) (omega arith)))
trim_end_refines (suc fuel) (suc k) io h [] v lt =
    let stop : (suc k == 0 || io.head == 0) ≡ true = ground (arith, v.ring) in
    let none_left : 0 - suc k ≡ 0 = omega arith in (io, h, [], rw stop refl, v, rw none_left refl)
trim_end_refines (suc fuel) (suc k) io h (p ∷ ps) v lt =
    let (xs, e) = snoc_form p ps in
    let r = last_or p ps in
    let w : IsValid io h (xs ++ (r ∷ [])) = subst (IsValid io h) e v in
    let go_on : (suc k == 0 || io.head == 0) ≡ false = ground (arith, v.ring.0, v.not_null) in
    let at : h.prev io.head ≡ r = Ring-rear h.next h.prev io.head xs r w.ring in
    let b : IsBlock h r = v.blocks r (last-has p ps) in
    let c : IsBlock h p = v.blocks p (ground arith) in
    let live : (h.live io.head && h.live r) ≡ true = ground (arith, v.ring.0, b.live, c.live) in
    elim (Bool-cases (ltb (suc k) (h.len r))) [
      | inl y ↦
          let (u, same) = cut_end-IsValid io h (suc k) xs r w (ground arith) in
          (
            record io { total = sub64 io.total (suc k) },
            cut_end (suc k) r h,
            xs ++ (r ∷ []),
            rw (at, go_on, live, y, trim_end-cut_end (suc k) r h b.live (ground arith)) refl,
            u,
            same ∙ ap (λ l. take (length (bytes h l) - suc k) (bytes h l)) (sym e),
          )
      | inr z ↦
          let d = remove_rear_lem io h xs r w in
          let size : length (block_bytes h r) ≡ h.len r = length-block_bytes h r in
          let split : bytes h (p ∷ ps) ≡ bytes h xs ++ block_bytes h r =
            ap (bytes h) e
            ∙ bytes-append h xs (r ∷ [])
            ∙ ap (λ l. bytes h xs ++ l) (append-nil (block_bytes h r)) in
          let back : take (length (bytes h xs) - (suc k - h.len r)) (bytes h xs)
              ≡ take (length (bytes h (p ∷ ps)) - suc k) (bytes h (p ∷ ps)) =
            ap (λ n. take (length (bytes h xs) - (suc k - n)) (bytes h xs)) (sym size)
            ∙ sym (take-shorter (bytes h xs) (block_bytes h r) (suc k) (ground (arith, size)))
            ∙ ap (λ l. take (length l - suc k) l) (sym split) in
          let (io', h', ps', run, u, same) =
            trim_end_refines fuel (suc k - h.len r) d.rest d.heap xs d.valid
              (omega (arith, lt, ap length e, length-append xs (r ∷ []))) in
          (
            io',
            h',
            ps',
            rw (at, go_on, live, z, d.done) run,
            u,
            same ∙ ap (λ l. take (length l - (suc k - h.len r)) l) d.same ∙ back,
          )
    ]
