-- ===== src/Hashtable/Clear.antt =====
-- hashtable/hashtable.c: `hashtable_clear` and `hashtable_destroy` free exactly the items of the table.
use mathlib.Core.Path.{subst}
use cclab.Base.{
  ℕ, zero, suc, ◌+◌, ◌-◌, ◌%◌, ◌^◌, ◌<◌, ◌≡◌, refl, sym, ◌∙◌, ap, ◌≢◌, inl, inr, true, false, not,
  ◌||◌, is_some, Bool, none, some, List, [], ◌∷◌, ◌==◌, if◌then◌else◌, length, arith, Bool-cases,
}
use cclab.Base.Int.{pos}
use cclab.Hashtable.Store.{Ptr, Items, State, update}
use cclab.Hashtable.Lists.{has, Distinct, Links}
use cclab.Hashtable.Relink.{relink, next_mem, ne-zero_of_mem, zero-not_mem, last_mem}
use cclab.Hashtable.Traverse.{
  clear_item, can_unlink, clear_loop, clear_end, hashtable_clear, destroy_end, hashtable_destroy,
}
use cclab.Hashtable.Valid.{IsValid, empty-IsValid}

-- `h'` is `h` with the items `xs` freed.
abbrev pub Freed : List Ptr → Items → Items → Type 0
Freed xs h h' = (p : Ptr) → h'.live p ≡ (if has p xs then false else h.live p)

-- The first item leaves the list: its fields, one by one.
abbrev cleared : Ptr → Items → Items
cleared p h = record h {
  next = update h.next p 0;
  prev = update (if h.next p == 0 then h.prev else update h.prev (h.next p) (h.prev p)) p 0;
  live = update h.live p false;
}

clear_item-cleared : (p : Ptr) (h : Items) → h.prev p ≡ 0 → clear_item p h ≡ cleared p h
clear_item-cleared p h e =
    let z : (h.prev p == 0) ≡ true = ground arith in
    rw z (elim (Bool-cases (h.next p == 0)) [ inl y ↦ rw y | inr n ↦ rw n ])

cleared-Links :
    (p : Ptr) (h : Items) (xs : List Ptr) (last : Ptr)
    → h.prev p ≡ 0
    → has p xs ≡ false
    → Distinct xs
    → Links h.next h.prev p (h.next p) xs last
    → (last' : Ptr) × Links (cleared p h).next (cleared p h).prev 0 (h.next p) xs last'
cleared-Links p h xs last e out d l = (
  if p == last then h.prev p else last,
  relink h.next h.prev (cleared p h).next (cleared p h).prev p 0 xs last e out
      (zero-not_mem h.next h.prev p (h.next p) xs last l) d
      (λ q m.
        let q0 : q ≢ 0 = ne-zero_of_mem h.next h.prev p (h.next p) xs last q l m in
        (ground arith, ground arith))
      l,
)

clear_loop_lem :
    (f n : ℕ) (h : Items) (p : Ptr) (xs : List Ptr) (last : Ptr)
    → length xs < f
    → n ≡ length xs
    → n < 2 ^ 32
    → Links h.next h.prev 0 p xs last
    → Distinct xs
    → ((q : Ptr) → has q xs ≡ true → h.live q ≡ true)
    → (h' : Items) × (clear_loop true f p n h ≡ some (0, h')) × Freed xs h h'
unfolding clear_loop
clear_loop_lem zero n h p xs last lt en small l d live = absurd (omega arith)
clear_loop_lem (suc f) n h p [] last lt en small l d live = (h, ground arith, λ q. refl)
clear_loop_lem (suc f) n h p (q ∷ xs) last lt en small (e, ne, b, l) d live =
    let back : h.prev p ≡ 0 = ap h.prev e ∙ b in
    let out : has p xs ≡ false = ap (λ t. has t xs) e ∙ d.0 in
    let rest : Links h.next h.prev p (h.next p) xs last =
      subst (λ t. Links h.next h.prev t (h.next t) xs last) (sym e) l in
    let (last', l') = cleared-Links p h xs last back out d.1 rest in
    let p0 : (p == 0) ≡ false = ground arith in
    let may : can_unlink h p ≡ true =
      ground (
        arith,
        live p,
        next_mem h.next h.prev 0 p (q ∷ xs) last q (e, ne, b, l),
        live (h.next p),
      ) in
    let k : ℕ = (n + 2 ^ 32 - 1) % 2 ^ 32 in
    let (h', run, freed) =
      clear_loop_lem f k (cleared p h) (h.next p) xs last' (omega arith) (omega arith) (omega arith)
        l' d.1 (λ t i. ground (arith, live t)) in
    (
      h',
      rw (p0, may) (ap (clear_loop true f (h.next p) k) (clear_item-cleared p h back) ∙ run),
      λ t. ground (arith, freed t),
    )

clear_loop-no_free : (f n : ℕ) (h : Items) (p : Ptr) → p ≢ 0 → clear_loop false f p n h ≡ none
unfolding clear_loop
clear_loop-no_free zero n h p ne = refl
clear_loop-no_free (suc f) n h p ne =
    let p0 : (p == 0) ≡ false = ground arith in
    rw p0 (elim (Bool-cases (can_unlink h p)) [ inl y ↦ rw y refl | inr z ↦ rw z refl ])

clear_end-clear_loop :
    (can_free : Bool) (s : State) (f n : ℕ) (h : Items) (p : Ptr) (r : ℕ × Items)
    → p ≢ 0
    → clear_loop true f p n h ≡ some r
    → clear_end s (clear_loop can_free f p n h) ≡ (if can_free then clear_end s (some r) else none)
clear_end-clear_loop true s f n h p r ne run = ap (clear_end s) run
clear_end-clear_loop false s f n h p r ne run = ap (clear_end s) (clear_loop-no_free f n h p ne)

-- A valid table with items is cleared: `hashtable_clear` returns 0, frees exactly its items, and
-- leaves a valid table with none. Without a `free_func` it calls through null.
pub clear_lem :
    (hash : List ℕ → ℕ → ℕ → ℕ) (s : State) (q : Ptr) (ps : List Ptr)
    → IsValid hash s (q ∷ ps)
    → (s' : State) × (hashtable_clear true s
        ≡ (if s.table.can_free then some (pos 0, s') else none))
      × IsValid hash s' []
      × Freed (q ∷ ps) s.items s'.items
unfolding hashtable_clear
clear_lem hash s q ps v =
    let (h', run, freed) =
      clear_loop_lem (s.table.hash_items + 1) s.table.hash_items s.items s.table.head (q ∷ ps)
        s.table.tail (omega (arith, v.count)) v.count (omega (arith, v.count, v.small)) v.links
        v.distinct v.live in
    let t0 : s.table.tail ≢ 0 =
      ne-zero_of_mem s.items.next s.items.prev 0 s.table.head (q ∷ ps) s.table.tail s.table.tail
        v.links (last_mem s.items.next s.items.prev 0 s.table.head q ps s.table.tail v.links) in
    let t : (not (is_some s.table.buckets) || (s.table.head == 0 || s.table.tail == 0)) ≡ false =
      ground (arith, v.table, v.links) in
    let s' : State = record {
      table = record s.table { hash_items = 0; head = 0; tail = 0; buckets = some (λ _. 0) };
      items = h';
    } in
    let head0 : s.table.head ≢ 0 = ground (arith, v.links) in
    (
      s',
      rw t (
          clear_end-clear_loop s.table.can_free s (s.table.hash_items + 1) s.table.hash_items
            s.items s.table.head (0, h') head0 run),
      empty-IsValid hash s' refl refl refl refl,
      freed,
    )

-- A valid table with items is destroyed: `hashtable_destroy` returns 0, frees exactly its items, and
-- gives its buckets back. Without a `free_func` it calls through null.
pub destroy_lem :
    (hash : List ℕ → ℕ → ℕ → ℕ) (s : State) (q : Ptr) (ps : List Ptr)
    → IsValid hash s (q ∷ ps)
    → (s' : State) × (hashtable_destroy true s
        ≡ (if s.table.can_free then some (pos 0, s') else none))
      × (s'.table.buckets ≡ none)
      × Freed (q ∷ ps) s.items s'.items
unfolding hashtable_destroy
destroy_lem hash s q ps v =
    let (s', run, valid, freed) = clear_lem hash s q ps v in
    (
      record s' { table = record s'.table { buckets = none } },
      ap destroy_end run
          ∙ elim (Bool-cases s.table.can_free) [ inl y ↦ rw y refl | inr z ↦ rw z refl ],
      refl,
      freed,
    )
