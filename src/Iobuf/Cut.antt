-- ===== src/Iobuf/Cut.antt =====
-- httpserver/iobuf.cc: a clone of a block, cut to its first bytes, as `IOBuf::Split` makes it.
use cclab.Base.{
  ℕ, ◌-◌, ◌<◌, ◌≤◌, ◌≡◌, refl, sym, ◌∙◌, ap, ◌≢◌, inl, inr, true, false, some, List, ◌==◌, leb,
  length, Bool-cases, arith, take,
}
use cclab.Base.Bytes.{copy_out, take-copy_out}
use cclab.Base.Pointers.{Ptr, update, has}
use cclab.Iobuf.Heap.{Heap, clone, block_trim_start, block_trim_end}
use cclab.Iobuf.Blocks.{Iobuf}
use cclab.Iobuf.Scan.{block_bytes}
use cclab.Iobuf.Valid.{bytes, IsBlock, IsValid, bytes-eq}
use cclab.Iobuf.Link.{IsApart}
use cclab.Iobuf.Room.{Ring-frame}
use cclab.Iobuf.Trim.{trimmed}

-- Two heaps that agree at a block.
pub record Agrees (h g : Heap) (p : Ptr) : Type 0 where
  pub live : g.live p ≡ h.live p
  pub buffer : g.buffer p ≡ h.buffer p
  pub start : g.start p ≡ h.start p
  pub len : g.len p ≡ h.len p
  pub cap : g.cap p ≡ h.cap p
  pub next : g.next p ≡ h.next p
  pub prev : g.prev p ≡ h.prev p
  pub held : g.held (h.buffer p) ≡ h.held (h.buffer p)
  pub content : g.content (h.buffer p) ≡ h.content (h.buffer p)

pub Agrees-block_bytes : {h g : Heap} (p : Ptr) → Agrees h g p → block_bytes g p ≡ block_bytes h p
Agrees-block_bytes {h} {g} p a = rw (a.buffer, a.start, a.len, a.content) refl

pub Agrees-IsValid :
    {io : Iobuf} {h : Heap} {ps : List Ptr} (g : Heap)
    → h.top ≤ g.top
    → ((p : Ptr) → has p ps ≡ true → Agrees h g p)
    → IsValid io h ps
    → IsValid io g ps
Agrees-IsValid {io} {h} {ps} g le same v =
    let all : bytes g ps ≡ bytes h ps = bytes-eq h g ps λ p m. Agrees-block_bytes p (same p m) in
    record {
      ring =
          Ring-frame h.next h.prev g.next g.prev io.head ps
            (λ p m. let a = same p m in (a.next, a.prev)) v.ring;
      distinct = v.distinct;
      not_null = v.not_null;
      blocks = λ p m.
          let a = same p m in
          let b = v.blocks p m in
          record {
            live = a.live ∙ b.live;
            held = ap g.held a.buffer ∙ a.held ∙ b.held;
            given = omega (arith, b.given);
            memory = omega (arith, b.memory, a.buffer);
            sized = a.cap ∙ b.sized;
            fits = omega (arith, a.start, a.len, b.fits);
          };
      own = λ p q i j e.
          let a = same p i in let c = same q j in v.own p q i j (sym a.buffer ∙ e ∙ c.buffer);
      counted = v.counted ∙ ap length (sym all);
      small = omega (arith, v.small, ap length all);
      positive = omega (arith, v.positive);
    }

-- A clone of the block `p`, cut to its first `n` bytes.
abbrev pub cut : ℕ → Ptr → Heap → Heap
cut n p h = let g = clone p h in record g { len = update g.len h.top (g.len h.top - (h.len p - n)) }

pub Agrees-cut : (n : ℕ) (p q : Ptr) (h : Heap) → q < h.top → Agrees h (cut n p h) q
unfolding clone
Agrees-cut n p q h lt =
    let e : (q == h.top) ≡ false = ground arith in
    record {
      live = rw e refl;
      buffer = rw e refl;
      start = rw e refl;
      len = rw e refl;
      cap = rw e refl;
      next = rw e refl;
      prev = rw e refl;
      held = refl;
      content = refl;
    }

pub cut-IsApart :
    {buf : Iobuf} {h : Heap} {qs : List Ptr} (n : ℕ) (p : Ptr)
    → IsBlock h p
    → IsValid buf h qs
    → n ≤ h.len p
    → ((q : Ptr) → has q qs ≡ true → h.buffer q ≢ h.buffer p)
    → IsApart (cut n p h) h.top qs
      × (block_bytes (cut n p h) h.top ≡ take n (block_bytes h p))
      × ((cut n p h).len h.top ≡ n)
unfolding clone
cut-IsApart {buf} {h} {qs} n p b w le own =
    let self : (h.top == h.top) ≡ true = ground arith in
    let len : (cut n p h).len h.top ≡ n = rw self (omega (arith, le)) in
    (
      record {
        block = record {
          live = rw self refl;
          held = rw self b.held;
          given = omega arith;
          memory = rw self (omega (arith, b.memory));
          sized = rw self b.sized;
          fits = rw self (omega (arith, b.fits, le));
        };
        outside = elim (Bool-cases (has h.top qs)) [
          | inl y ↦ let c = w.blocks h.top y in absurd (omega (arith, c.given))
          | inr z ↦ z
        ];
        not_null = omega (arith, w.positive);
        alone = (rw self refl, rw self refl);
        own = λ q m e.
            let c = w.blocks q m in
            let f : (q == h.top) ≡ false = ground (arith, c.given) in
            let old : (cut n p h).buffer q ≡ h.buffer q = rw f refl in
            let new : (cut n p h).buffer h.top ≡ h.buffer p = rw self refl in
            own q m (sym old ∙ e ∙ new);
      },
      rw self (
          ap (copy_out (h.content (h.buffer p)) (h.start p)) (omega (arith, le))
          ∙ sym (take-copy_out (h.content (h.buffer p)) (h.start p) (h.len p) n le)),
      len,
    )

pub cut-top : (n : ℕ) (p : Ptr) (h : Heap) → h.top ≤ (cut n p h).top
unfolding clone
cut-top n p h = omega arith

pub trim_end-cut :
    (n : ℕ) (p : Ptr) (h : Heap) → block_trim_end (h.len p - n) h.top (clone p h) ≡ some (cut n p h)
unfolding clone block_trim_end
trim_end-cut n p h =
    let self : (h.top == h.top) ≡ true = ground arith in
    let le : leb (h.len p - n) (h.len p) ≡ true = ground arith in rw (self, le) refl

pub trim_start-trimmed :
    (n : ℕ) (p : Ptr) (g : Heap)
    → g.live p ≡ true
    → n ≤ g.len p
    → block_trim_start n p g ≡ some (trimmed n p g)
unfolding block_trim_start
trim_start-trimmed n p g live le =
    let e : leb n (g.len p) ≡ true = ground arith in rw (live, e) refl

pub Agrees-trimmed : (n : ℕ) (p q : Ptr) (g : Heap) → q ≢ p → Agrees g (trimmed n p g) q
Agrees-trimmed n p q g ne =
    let e : (q == p) ≡ false = ground arith in
    record {
      live = refl;
      buffer = refl;
      start = rw e refl;
      len = rw e refl;
      cap = refl;
      next = refl;
      prev = refl;
      held = refl;
      content = refl;
    }
