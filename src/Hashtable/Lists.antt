-- ===== src/Hashtable/Lists.antt =====
-- Lists of addresses, and the two kinds of linked list that a table is made of.
use cclab.Base.{◌≡◌, ◌∙◌, ◌≢◌, true, false, List, [], ◌∷◌, arith}
use cclab.Hashtable.Store.{Ptr, update}
pub use cclab.Base.Pointers.{
  has, Distinct, delete, has-append, has-delete, has-delete_self, Distinct-delete, Distinct-append,
  length-delete, has-delete_inv, length-le_of_has,
}

-- From `p` the successors `n` lead through the addresses `xs` to NULL.
abbrev pub Chain : (Ptr → Ptr) → Ptr → List Ptr → Type 0
Chain n p [] = p ≡ 0
Chain n p (q ∷ xs) = (p ≡ q) × (q ≢ 0) × Chain n (n q) xs

-- From `p` the successors `n` lead through `xs` to NULL and the predecessors `v` lead back to
-- `before`; `last` is the last address, or `before`.
abbrev pub Links : (n v : Ptr → Ptr) → (before p : Ptr) → List Ptr → (last : Ptr) → Type 0
Links n v before p [] last = (p ≡ 0) × (last ≡ before)
Links n v before p (q ∷ xs) last = (p ≡ q) × (q ≢ 0) × (v q ≡ before) × Links n v q (n q) xs last

-- A write to an address outside a chain leaves the chain.
pub Chain-update :
    (n : Ptr → Ptr) (p : Ptr) (xs : List Ptr) (a v : Ptr)
    → has a xs ≡ false
    → Chain n p xs
    → Chain (update n a v) p xs
Chain-update n p [] a v out c = c
Chain-update n p (q ∷ xs) a v out (e, ne, c) =
    let same : update n a v q ≡ n q = ground arith in
    (e, ne, rw same (Chain-update n (n q) xs a v (ground arith) c))

-- So does any change of the links that spares the addresses of the list.
pub Links-frame :
    (n v n' v' : Ptr → Ptr) (before p : Ptr) (xs : List Ptr) (last : Ptr)
    → ((a : Ptr) → has a xs ≡ true → (n' a ≡ n a) × (v' a ≡ v a))
    → Links n v before p xs last
    → Links n' v' before p xs last
Links-frame n v n' v' before p [] last same l = l
Links-frame n v n' v' before p (q ∷ xs) last same (e, ne, b, l) =
    let here : (n' q ≡ n q) × (v' q ≡ v q) = same q (ground arith) in
    (
      e,
      ne,
      here.1 ∙ b,
      rw here.0 (Links-frame n v n' v' q (n q) xs last (λ a i. same a (ground arith)) l),
    )

pub Chain-frame :
    (n n' : Ptr → Ptr) (p : Ptr) (xs : List Ptr)
    → ((a : Ptr) → has a xs ≡ true → n' a ≡ n a)
    → Chain n p xs
    → Chain n' p xs
Chain-frame n n' p [] same c = c
Chain-frame n n' p (q ∷ xs) same (e, ne, c) =
    let here : n' q ≡ n q = same q (ground arith) in
    (e, ne, rw here (Chain-frame n n' (n q) xs (λ a i. same a (ground arith)) c))
