-- ===== src/Iobuf/Read.antt =====
-- httpserver/iobuf.cc: what the functions of `IOBuf` that only read give on a valid buffer.
use cclab.Base.{
  ℕ, zero, suc, ◌+◌, ◌-◌, ◌<◌, ◌≤◌, ◌≡◌, refl, sym, ◌∙◌, ap, inl, inr, true, false, some, List, [],
  ◌∷◌, ◌++◌, ◌==◌, if◌then◌else◌, ltb, length, append_assoc, append-nil, arith, Bool-cases, get_or,
  get_or-append, get_or-append_lt,
}
use cclab.Base.Bytes.{Bytes, copy_out}
use cclab.Base.Pointers.{Ptr, has}
use cclab.Base.Ring.{Seg}
use cclab.Iobuf.Heap.{Heap}
use cclab.Iobuf.Blocks.{Iobuf}
use cclab.Iobuf.Scan.{
  block_bytes, no_byte, byte_loop, byte_at, string_loop, to_string, count_loop, block_count,
}
use cclab.Iobuf.Valid.{bytes, IsValid, length-block_bytes, length-bytes}

module _ (h : Heap) (head : Ptr) where
  -- From the block `b` on, the blocks `ps` follow, and then the head.
  record Tail (b : Ptr) (ps : List Ptr) : Type 0 where
    links : Seg h.next h.prev b ps head
    away : has head ps ≡ false
    not_null : has 0 (b ∷ ps) ≡ false
    live : (p : Ptr) → has p (b ∷ ps) ≡ true → h.live p ≡ true

  Tail-next : {b q : Ptr} {ps : List Ptr} → Tail b (q ∷ ps) → Tail q ps
  Tail-next t = record {
    links = t.links.2;
    away = ground (arith, t.away);
    not_null = ground (arith, t.not_null);
    live = λ p m. t.live p (ground arith);
  }

  string_loop_lem :
      (fuel : ℕ) (buf : List ℕ) (b : Ptr) (ps : List Ptr)
      → Tail b ps
      → length ps < fuel
      → string_loop fuel head buf b h ≡ some (buf ++ bytes h (b ∷ ps))
  unfolding string_loop
  string_loop_lem zero buf b ps t lt = absurd (omega arith)
  string_loop_lem (suc fuel) buf b [] t lt =
      let e : (b == 0) ≡ false = ground (arith, t.not_null) in
      let stop : (h.next b == head) ≡ true = ground (arith, t.links) in
      let live : h.live b ≡ true = t.live b (ground arith) in
      rw (e, live, stop, append-nil (block_bytes h b)) refl
  string_loop_lem (suc fuel) buf b (q ∷ ps) t lt =
      let e : (b == 0) ≡ false = ground (arith, t.not_null) in
      let next : h.next b ≡ q = t.links.0 in
      let go_on : (q == head) ≡ false = ground (arith, t.away) in
      let live : h.live b ≡ true = t.live b (ground arith) in
      rw (e, live, next, go_on)
        (string_loop_lem fuel (buf ++ block_bytes h b) q ps (Tail-next t) (omega (arith, lt))
          ∙ ap some (append_assoc buf (block_bytes h b) (bytes h (q ∷ ps))))

  count_loop_lem :
      (fuel n : ℕ) (b : Ptr) (ps : List Ptr)
      → Tail b ps
      → length ps < fuel
      → count_loop fuel head n (h.next b) h ≡ some (n + length ps)
  unfolding count_loop
  count_loop_lem zero n b ps t lt = absurd (omega arith)
  count_loop_lem (suc fuel) n b [] t lt =
      let stop : (h.next b == head) ≡ true = ground (arith, t.links) in
      let e : n ≡ n + 0 = omega arith in rw stop (ap some e)
  count_loop_lem (suc fuel) n b (q ∷ ps) t lt =
      let next : h.next b ≡ q = t.links.0 in
      let go_on : (q == head) ≡ false = ground (arith, t.away) in
      let live : h.live q ≡ true = t.live q (ground arith) in
      rw (next, go_on, live)
        (count_loop_lem fuel (n + 1) q ps (Tail-next t) (omega (arith, lt)) ∙ ap some (omega arith))

get_or-copy_out :
    (m : Bytes) (base n i : ℕ) (d : ℕ) → i < n → get_or (copy_out m base n) i d ≡ m (base + i)
unfolding copy_out
get_or-copy_out m base zero i d lt = absurd (omega arith)
get_or-copy_out m base (suc n) zero d lt = ap m (omega arith)
get_or-copy_out m base (suc n) (suc i) d lt =
    get_or-copy_out m (suc base) n i d (omega arith) ∙ ap m (omega arith)

module _ (h : Heap) (head : Ptr) where
  -- The byte stands behind the bytes of the block `b`.
  byte_next :
      (fuel pos : ℕ) (b : Ptr) (ps : List Ptr)
      → Tail h head b ps
      → ((q : Ptr) (qs : List Ptr)
          → Tail h head q qs
          → pos - h.len b < length (bytes h (q ∷ qs))
          → length qs < fuel
          → byte_loop fuel head (pos - h.len b) q h
            ≡ some (get_or (bytes h (q ∷ qs)) (pos - h.len b) 0))
      → pos < length (bytes h (b ∷ ps))
      → h.len b ≤ pos
      → length ps < suc fuel
      → (if h.next b == head
          then some no_byte
          else byte_loop fuel head (pos - h.len b) (h.next b) h)
        ≡ some (get_or (bytes h (b ∷ ps)) pos 0)
  byte_next fuel pos b [] t rest inside behind lt = absurd (omega (arith, length-bytes h b []))
  byte_next fuel pos b (q ∷ qs) t rest inside behind lt =
      let next : h.next b ≡ q = t.links.0 in
      let go_on : (q == head) ≡ false = ground (arith, t.away) in
      let size : length (block_bytes h b) ≡ h.len b = length-block_bytes h b in
      rw (next, go_on)
        (rest q qs (Tail-next h head t) (omega (arith, length-bytes h b (q ∷ qs)))
            (omega (arith, lt))
          ∙ ap some (
              sym (
                get_or-append (block_bytes h b) (bytes h (q ∷ qs)) pos 0 (omega (arith, size))
                ∙ ap (λ k. get_or (bytes h (q ∷ qs)) (pos - k) 0) size)))

  byte_loop_lem :
      (fuel pos : ℕ) (b : Ptr) (ps : List Ptr)
      → Tail h head b ps
      → pos < length (bytes h (b ∷ ps))
      → length ps < fuel
      → byte_loop fuel head pos b h ≡ some (get_or (bytes h (b ∷ ps)) pos 0)
  unfolding byte_loop
  byte_loop_lem zero pos b ps t inside lt = absurd (omega arith)
  byte_loop_lem (suc fuel) pos b ps t inside lt =
      let e : (b == 0) ≡ false = ground (arith, t.not_null) in
      let live : h.live b ≡ true = t.live b (ground arith) in
      let size : length (block_bytes h b) ≡ h.len b = length-block_bytes h b in
      elim (Bool-cases (ltb pos (h.len b))) [
        | inl y ↦
            rw (e, live, y)
              (ap some (
                sym (
                  get_or-append_lt (block_bytes h b) (bytes h ps) pos 0 (ground (arith, size))
                  ∙ get_or-copy_out (h.content (h.buffer b)) (h.start b) (h.len b) pos 0
                      (ground arith))))
        | inr z ↦
            rw (e, live, z)
              (byte_next fuel pos b ps t (λ q qs u. byte_loop_lem fuel (pos - h.len b) q qs u)
                inside (ground (arith, z)) lt)
      ]

Tail-IsValid :
    {io : Iobuf} {h : Heap} {p : Ptr} {ps : List Ptr} → IsValid io h (p ∷ ps) → Tail h p p ps
Tail-IsValid v = record {
  links = v.ring.1;
  away = v.distinct.0;
  not_null = v.not_null;
  live = λ p m. let b = v.blocks p m in b.live;
}

-- `ToString` of a valid buffer is over after as many rounds as there are blocks, and gives its bytes;
-- `TEST_BlockCount` gives how many blocks there are.
pub reading_refines :
    (fuel : ℕ) (io : Iobuf) (h : Heap) (ps : List Ptr)
    → IsValid io h ps
    → length ps < fuel
    → (to_string fuel io h ≡ some (bytes h ps)) × (block_count fuel io h ≡ some (length ps))
unfolding to_string string_loop block_count
reading_refines zero io h ps v lt = absurd (omega arith)
reading_refines (suc fuel) io h [] v lt =
    let e : (io.head == 0) ≡ true = ground (arith, v.ring) in rw e (refl, refl)
reading_refines (suc fuel) io h (p ∷ ps) v lt =
    let t = Tail-IsValid v in
    let e : (p == 0) ≡ false = ground (arith, v.not_null) in
    let live : h.live p ≡ true = t.live p (ground arith) in
    (
      ap (λ a. string_loop (suc fuel) a [] a h) v.ring.0
          ∙ string_loop_lem h p (suc fuel) [] p ps t (omega (arith, lt)),
      rw (v.ring.0, e, live)
          (count_loop_lem h p (suc fuel) 1 p ps t (omega (arith, lt)) ∙ ap some (omega arith)),
    )

-- `ByteAt` of a position in a valid buffer gives its byte.
pub byte_at_refines :
    (fuel pos : ℕ) (io : Iobuf) (h : Heap) (ps : List Ptr)
    → IsValid io h ps
    → length ps < fuel
    → pos < length (bytes h ps)
    → byte_at fuel pos io h ≡ some (get_or (bytes h ps) pos 0)
unfolding byte_at
byte_at_refines fuel pos io h [] v lt inside = absurd (omega arith)
byte_at_refines fuel pos io h (p ∷ ps) v lt inside =
    let known : ltb pos io.total ≡ true = ground (arith, v.counted, inside) in
    rw (known, v.ring.0)
      (byte_loop_lem h p fuel pos p ps (Tail-IsValid v) inside (omega (arith, lt)))
