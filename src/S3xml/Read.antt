-- ===== src/S3xml/Read.antt =====
-- s3xml/s3_xml.cc: how `FindFirstNode` and `NextSibling` read the nodes with a name.
use cclab.Base.{
  ℕ, zero, suc, ◌<◌, ◌≡◌, refl, sym, ◌∙◌, ap, inl, inr, Bool, true, false, ◌||◌, Option, none, some,
  List, [], ◌∷◌, ◌==◌, if◌then◌else◌, map, arith, length,
}
use mathlib.Core.Path.{ap₂, subst}
use cclab.Base.Pointers.{Ptr, has}
use cclab.Http.Strings.{Str}
use cclab.S3xml.Rapidxml.{Rapidxml}
use cclab.S3xml.Ops.{
  State, is_empty, then_do, and_reply, name_first, fill_in, set_to, find_first_node, next_sibling,
  node_value,
}
use cclab.S3xml.Laws.{IsRapidxml, first_named, behind, name_text}
use cclab.S3xml.Build.{entries, IsAlive}
use cclab.S3xml.Search.{
  named, AreRead, readable, entries-AreRead, IsHit, search_lem, has-behind, behind-behind,
}
use cclab.S3xml.Fill.{
  value_text, IsApart, IsReading, IsView, assign-IsView, assign-IsAlive, fill_in_lem,
  IsView-AreRead,
}

module _ {ℓ} {X : Type ℓ} (rapid : Rapidxml X) where
  -- A program that reads the values of the nodes with a name: `FindFirstNode`, and `NextSibling` until it returns false.
  abbrev pub read_more :
      (State X → Option (List Str × State X)) → Ptr → Bool × State X → Option (List Str × State X)
  read_more go n (false, s) = some ([], s)
  read_more go n (true, s) =
      then_do (go s) (λ (values, s'). some (node_value rapid n s ∷ values, s'))

  abbrev pub read_rest : ℕ → Ptr → State X → Option (List Str × State X)
  read_rest zero n s = none
  read_rest (suc fuel) n s = then_do (next_sibling rapid n s) (read_more (read_rest fuel n) n)

  abbrev pub read_named : ℕ → Ptr → Str → Ptr → State X → Option (List Str × State X)
  read_named fuel to name n s =
      then_do (find_first_node rapid to name n s) (read_more (read_rest fuel n) n)

  module _ (laws : IsRapidxml rapid) where
    -- `NextSibling` at a child of `at`.
    next_sibling_lem :
        (at n : Ptr) (name : Str) (s : State X)
        → IsReading rapid at n name s
        → is_empty name ≡ false
        → has (s.nodes n).rep_node (rapid.children at s.document.doc) ≡ true
        → let x = s.document.doc in
          let found =
            first_named name
              (name_text rapid s.memory x)
              (behind (s.nodes n).rep_node (rapid.children at x)) in
          next_sibling rapid n s
          ≡ (if found == 0 then some (false, s) else and_reply rapid true (set_to rapid found n s))
    unfolding next_sibling
    next_sibling_lem at n name s r some_name i =
        let x = s.document.doc in
        let c = (s.nodes n).rep_node in
        let a = r.alive in
        let t = a.child c i in
        let up : rapid.parent c x ≡ at = a.parent c i in
        let go_on : (c == 0 || is_empty (s.nodes n).name.bytes) ≡ false =
          ground (arith, t.not_null, ap is_empty r.named ∙ some_name) in
        let found : rapid.next_sibling c (s.nodes n).name.bytes s.memory x
            ≡ some
                (first_named name (name_text rapid s.memory x) (behind c (rapid.children at x))) =
          laws.next_sibling c (s.nodes n).name.bytes s.memory x (λ e. a.not_null (sym up ∙ e))
          ∙ ap₂
              (λ l p.
                some (first_named l (name_text rapid s.memory x) (behind c (rapid.children p x))))
              r.named up in
        rw (go_on, found) refl

    rest_lem :
        (fuel : ℕ) (at n : Ptr) (name : Str) (s : State X) (es : List (Str × Str))
        → IsReading rapid at n name s
        → is_empty name ≡ false
        → has (s.nodes n).rep_node (rapid.children at s.document.doc) ≡ true
        → AreRead
            (name_text rapid s.memory s.document.doc)
            (value_text rapid s.memory s.document.doc)
            (behind (s.nodes n).rep_node (rapid.children at s.document.doc))
            es
        → length (behind (s.nodes n).rep_node (rapid.children at s.document.doc)) < fuel
        → (s' : State X) × (read_rest fuel n s ≡ some (named name es, s'))
          × (s'.document.doc ≡ s.document.doc)
    rest_lem zero at n name s es r some_name i read lt = absurd (omega arith)
    rest_lem (suc fuel) at n name s es r some_name i read lt =
        let x = s.document.doc in
        let ns = behind (s.nodes n).rep_node (rapid.children at x) in
        let a = r.alive in
        let next = next_sibling_lem at n name s r some_name i in
        elim (search_lem name (name_text rapid s.memory x) (value_text rapid s.memory x) ns es
          read) [
            | inl (nothing, no_values) ↦
                let stop : (first_named name (name_text rapid s.memory x) ns == 0) ≡ true =
                  ground (arith, nothing) in
                (s, rw (next, stop, no_values) refl, refl)
            | inr (_, hit) ↦
                let c = first_named name (name_text rapid s.memory x) ns in
                let h : IsHit name (name_text rapid s.memory x) (value_text rapid s.memory x) ns es
                    c =
                  hit in
                let j : has c (rapid.children at x) ≡ true =
                  has-behind c (s.nodes n).rep_node (rapid.children at x) h.inside in
                let t = a.child c j in
                let go_on : (c == 0) ≡ false = ground (arith, t.not_null) in
                let f = fill_in_lem rapid at n c name h.value s r h.holds in
                let s₁ = fill_in rapid c n h.value s in
                let after : behind (s₁.nodes n).rep_node (rapid.children at x) ≡ behind c ns =
                  ap (λ p. behind p (rapid.children at x)) f.rep_node
                  ∙ behind-behind c (s.nodes n).rep_node (rapid.children at x) a.distinct
                      h.inside in
                let sub : (d : Ptr)
                    → has d (behind c ns) ≡ true
                    → has d (rapid.children at x) ≡ true =
                  λ d k.
                    has-behind d (s.nodes n).rep_node (rapid.children at x) (has-behind d c ns k) in
                let read' =
                  IsView-AreRead rapid at s s₁ (behind c ns) h.entries f.view sub h.rest in
                let (s', run, same) =
                  rest_lem fuel at n name s₁ h.entries f.reading some_name
                    (ap (λ p. has p (rapid.children at x)) f.rep_node ∙ j)
                    (subst
                      (λ l.
                        AreRead (name_text rapid s₁.memory x) (value_text rapid s₁.memory x) l
                          h.entries)
                      (sym after) read')
                    (omega (arith, h.shorter, lt, ap length after)) in
                (s', rw (next, go_on, f.done, run, h.values, f.value) refl, same)
          ]

    -- The first search, through a handle whose strings are not those of the node's children.
    find_first_node_lem :
        (to n : Ptr) (name : Str) (s : State X)
        → IsAlive rapid (s.nodes to).rep_node s
        → let x = s.document.doc in
          let found =
            first_named name
              (name_text rapid s.memory x)
              (rapid.children (s.nodes to).rep_node x) in
          find_first_node rapid to name n s ≡ (
            if found == 0
            then some (false, s)
            else and_reply rapid true (set_to rapid found n (name_first rapid name n s)))
    unfolding find_first_node
    find_first_node_lem to n name s a =
        let x = s.document.doc in
        let go_on : ((s.nodes to).rep_node == 0) ≡ false = ground (arith, a.not_null) in
        rw (go_on, laws.first_node (s.nodes to).rep_node name s.memory x) refl

    -- With rapidxml as its manual says, and on more rounds than the node has children, a program
    -- that reads through a handle of its own, whose strings the document does not point to, the
    -- values of a live node's children that have a name, not empty, gets those of all the children
    -- with the name, in whatever case, in their order; the document is as before.
    pub read_named_refines :
        (fuel : ℕ) (to n : Ptr) (name : Str) (s : State X) (es : List (Str × Str))
        → IsAlive rapid (s.nodes to).rep_node s
        → IsApart rapid (s.nodes to).rep_node (s.nodes n).name s
        → IsApart rapid (s.nodes to).rep_node (s.nodes n).value s
        → is_empty name ≡ false
        → entries rapid (s.nodes to).rep_node s ≡ map readable es
        → length es < fuel
        → (s' : State X) × (read_named fuel to name n s ≡ some (named name es, s'))
          × (s'.document.doc ≡ s.document.doc)
    read_named_refines fuel to n name s es a name_apart value_apart some_name all lt =
        let x = s.document.doc in
        let at = (s.nodes to).rep_node in
        let ns = rapid.children at x in
        let (read, size) =
          entries-AreRead (name_text rapid s.memory x) (value_text rapid s.memory x) ns es all in
        let next = find_first_node_lem to n name s a in
        let self : (n == n) ≡ true = ground arith in
        elim (search_lem name (name_text rapid s.memory x) (value_text rapid s.memory x) ns es
          read) [
            | inl (nothing, no_values) ↦
                let stop : (first_named name (name_text rapid s.memory x) ns == 0) ≡ true =
                  ground (arith, nothing) in
                (s, rw (next, stop, no_values) refl, refl)
            | inr (_, hit) ↦
                let c = first_named name (name_text rapid s.memory x) ns in
                let h : IsHit name (name_text rapid s.memory x) (value_text rapid s.memory x) ns es
                    c =
                  hit in
                let t = a.child c h.inside in
                let go_on : (c == 0) ≡ false = ground (arith, t.not_null) in
                let s₀ = name_first rapid name n s in
                let w : IsView rapid at s s₀ =
                  assign-IsView rapid at (s.nodes n).name name s s₀.nodes a name_apart in
                let r : IsReading rapid at n name s₀ = record {
                  alive = assign-IsAlive rapid at s₀.memory s s₀.nodes (omega arith) a;
                  named = rw self refl;
                  apart = λ d i. rw self (value_apart d i);
                } in
                let f =
                  fill_in_lem rapid at n c name h.value s₀ r ((w.same c h.inside).1 ∙ h.holds) in
                let s₁ = fill_in rapid c n h.value s₀ in
                let sub : (d : Ptr) → has d (behind c ns) ≡ true → has d ns ≡ true =
                  λ d k. has-behind d c ns k in
                let read' =
                  IsView-AreRead rapid at s₀ s₁ (behind c ns) h.entries f.view sub
                    (IsView-AreRead rapid at s s₀ (behind c ns) h.entries w sub h.rest) in
                let after : behind (s₁.nodes n).rep_node ns ≡ behind c ns =
                  ap (λ p. behind p ns) f.rep_node in
                let (s', run, same) =
                  rest_lem fuel at n name s₁ h.entries f.reading some_name
                    (ap (λ p. has p ns) f.rep_node ∙ h.inside)
                    (subst
                      (λ l.
                        AreRead (name_text rapid s₁.memory x) (value_text rapid s₁.memory x) l
                          h.entries)
                      (sym after) read')
                    (omega (arith, h.shorter, lt, size, ap length after)) in
                (s', rw (next, go_on, f.done, run, h.values, f.value) refl, same)
          ]
