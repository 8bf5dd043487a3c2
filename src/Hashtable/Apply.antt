-- ===== src/Hashtable/Apply.antt =====
-- hashtable/hashtable.c: the calls that `hashtable_apply` makes.
use cclab.Base.{
  ℕ, zero, suc, ◌<◌, ◌≡◌, refl, ◌∙◌, ap, Bool, true, false, Option, some, List, [], ◌∷◌, ◌==◌,
  length, arith, Option-cases, inl, inr,
}
use cclab.Hashtable.Store.{Ptr, State}
use cclab.Hashtable.Lists.{has, Chain, Chain-frame, Links}
use cclab.Hashtable.Traverse.{ApplyFunc, after_call, apply_loop, apply_end, hashtable_apply}
use cclab.Hashtable.Valid.{IsValid}

-- One call of the callback for each address, in this order.
unfoldable pub visit : ApplyFunc → List Ptr → State → Option State
visit func [] s = some s
visit func (p ∷ ps) s = after_call (λ _ s'. visit func ps s') (func p s)

-- A call leaves the items that are still to come in their places, and allocated; it may take out or
-- free its own item.
abbrev pub Spares : ApplyFunc → List Ptr → State → Type 0
Spares func [] s = Unit
Spares func (p ∷ ps) s =
    (r : Bool) (s' : State)
    → func p s ≡ some (r, s')
    → ((q : Ptr)
        → has q ps ≡ true
        → (s'.items.next q ≡ s.items.next q) × (s'.items.live q ≡ s.items.live q))
      × Spares func ps s'

Links-Chain :
    (n v : Ptr → Ptr) (before p : Ptr) (ps : List Ptr) (last : Ptr)
    → Links n v before p ps last
    → Chain n p ps
Links-Chain n v before p [] last l = l.0
Links-Chain n v before p (q ∷ ps) last (e, ne, b, l) = (e, ne, Links-Chain n v q (n q) ps last l)

apply_loop-visit :
    (func : ApplyFunc) (fuel : ℕ) (p : Ptr) (ps : List Ptr) (s : State)
    → length ps < fuel
    → Chain s.items.next p ps
    → ((q : Ptr) → has q ps ≡ true → s.items.live q ≡ true)
    → Spares func ps s
    → apply_loop func fuel p s ≡ visit func ps s
unfolding apply_loop visit
apply_loop-visit func zero p ps s enough c live sp = absurd (omega arith)
apply_loop-visit func (suc fuel) p [] s enough c live sp = rw c refl
apply_loop-visit func (suc fuel) p (q ∷ ps) s enough (e, ne, c) live sp =
    let z : (p == 0) ≡ false = ground arith in
    let alive : s.items.live p ≡ true = live p (ground arith) in
    rw (z, alive, e)
      (elim (Option-cases (func q s)) [
        | inl y ↦ rw y refl
        | inr ((r, s'), y) ↦
            let (same, sp') = sp r s' y in
            rw y (
              apply_loop-visit func fuel (s.items.next q) ps s' (omega (arith, enough))
                (Chain-frame s.items.next s'.items.next (s.items.next q) ps (λ a i. (same a i).0) c)
                (λ a i. (same a i).1 ∙ live a (ground arith)) sp')
      ])

-- `hashtable_apply` of a valid table calls the function once for each item, in the order of insertion,
-- and returns HT_OK, where the function spares the items to come; it may free its own item.
pub hashtable_apply-visit :
    (hash : List ℕ → ℕ → ℕ → ℕ) (func : ApplyFunc) (s : State) (ps : List Ptr) (fuel : ℕ)
    → IsValid hash s ps
    → Spares func ps s
    → length ps < fuel
    → hashtable_apply true (some func) fuel s ≡ apply_end (visit func ps s)
unfolding hashtable_apply
hashtable_apply-visit hash func s ps fuel v sp enough = ap apply_end (
    apply_loop-visit func fuel s.table.head ps s enough
      (Links-Chain s.items.next s.items.prev 0 s.table.head ps s.table.tail v.links) v.live sp)
