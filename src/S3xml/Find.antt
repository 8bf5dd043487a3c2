-- ===== src/S3xml/Find.antt =====
-- s3xml/s3_xml.cc: what `FindFirstNode` does to the handle that it fills in.
use cclab.Base.{
  ◌+◌, ◌<◌, ◌≡◌, ◌≢◌, refl, sym, ◌∙◌, inl, inr, true, false, not, ◌||◌, Option, none, some, ◌==◌,
  Bool-cases, arith,
}
use mathlib.Core.Path.{subst}
use cclab.Base.Pointers.{Ptr}
use cclab.Http.Strings.{Str}
use cclab.S3xml.Rapidxml.{Rapidxml}
use cclab.S3xml.Ops.{
  State, allocate_node, append_new_node, then_do, and_reply, name_first, fill_in, set_to, search_in,
  find_first,
}
use cclab.S3xml.Laws.{IsRapidxml}
use cclab.S3xml.Build.{entry, allocate_node_lem}

module _ {ℓ} {X : Type ℓ} (rapid : Rapidxml X) where
  then_do-some :
      {A : Type 0} (o : Option A) (f : A → State X) (s' : State X)
      → and_reply rapid true (then_do o (λ v. some (f v))) ≡ some (true, s')
      → (v : A) × (o ≡ some v) × (f v ≡ s')
  then_do-some none f s' e = absurd cc
  then_do-some (some v) f s' e = (v, refl, cc)

  -- A search that has found a node has filled in the handle.
  search_in_lem :
      (at first : Ptr) (name : Str) (s s' : State X)
      → search_in rapid at name first s ≡ some (true, s')
      → (node : Ptr) × (v : Str) × (node ≢ 0)
        × (fill_in rapid node first v (name_first rapid name first s) ≡ s')
  search_in_lem at first name s s' e =
      let node = rapid.first_node at name s.memory s.document.doc in
      elim (Bool-cases (node == 0)) [
        | inl y ↦
            let f : search_in rapid at name first s ≡ some (false, s) = rw y refl in
            absurd (cc (e, f))
        | inr z ↦
            let s₁ = name_first rapid name first s in
            let f : search_in rapid at name first s
                ≡ and_reply rapid true (set_to rapid node first s₁) =
              rw z refl in
            let (v, read, same) =
              then_do-some (s₁.memory.text (rapid.value node s₁.document.doc))
                (λ v. fill_in rapid node first v s₁) s' (sym f ∙ e) in
            (node, v, ground (arith, z), same)
      ]

  -- What the handle and the strings are, filled in.
  record Filled (first : Ptr) (s s' : State X) : Type ℓ where
    has_doc : (s'.nodes first).has_doc ≡ (s.nodes first).has_doc
    rep_node : (s'.nodes first).rep_node ≢ 0
    doc : s'.document.doc ≡ s.document.doc
    name_gone :
        (s.nodes first).name.at < s.memory.top → s'.memory.text (s.nodes first).name.at ≡ none
    value_gone :
        (s.nodes first).value.at < s.memory.top → s'.memory.text (s.nodes first).value.at ≡ none

  Filled-fill_in :
      (node first : Ptr) (name v : Str) (s : State X)
      → node ≢ 0
      → Filled first s (fill_in rapid node first v (name_first rapid name first s))
  Filled-fill_in node first name v s ne =
      let self : (first == first) ≡ true = ground arith in
      let t = s.memory.top in
      let r = s.nodes first in
      record {
        has_doc = rw self refl;
        rep_node = rw self ne;
        doc = refl;
        name_gone = λ lt.
            let far : (r.name.at == t) ≡ false = ground arith in
            let far' : (r.name.at == t + 1) ≡ false = ground arith in
            let here : (r.name.at == r.name.at) ≡ true = ground arith in
            elim (Bool-cases (r.name.at == r.value.at)) [
              | inl y ↦ rw self (rw (far', y) refl)
              | inr z ↦ rw self (rw (far', z, far, here) refl)
            ];
        value_gone = λ lt.
            let far : (r.value.at == t + 1) ≡ false = ground arith in
            let here : (r.value.at == r.value.at) ≡ true = ground arith in
            rw self (rw (far, here) refl);
      }

  search_in-Filled :
      (at first : Ptr) (name : Str) (s s' : State X)
      → search_in rapid at name first s ≡ some (true, s')
      → Filled first s s'
  search_in-Filled at first name s s' e =
      let (node, v, ne, same) = search_in_lem at first name s s' e in
      subst (Filled first s) same (Filled-fill_in node first name v s ne)

  -- A handle without a document, as the program makes one, has a node after a `FindFirstNode` that returns true, and
  -- `AppendNode(name, value)` through it fails all the same.
  pub found-NoDoc :
      (name key value : Str) (first : Ptr) (s s' : State X)
      → (s.nodes first).has_doc ≡ false
      → find_first rapid name first s ≡ some (true, s')
      → ((s'.nodes first).rep_node ≢ 0) × (append_new_node rapid first key value s' ≡ none)
  unfolding find_first append_new_node
  found-NoDoc name key value first s s' f e =
      let d = search_in-Filled rapid.document first name s s' e in
      let stop : ((s'.nodes first).rep_node == 0 || not (s'.nodes first).has_doc) ≡ true =
        ground (arith, d.has_doc, f) in
      (d.rep_node, rw stop refl)

  -- With rapidxml as its manual says, a `FindFirstNode` that returns true into the handle of a node
  -- that `AllocateNode` has made ends the strings that the node in the document points to: neither
  -- its name nor its value can be read.
  pub reuse-Dangles :
      (laws : IsRapidxml rapid) (name key value : Str) (s s' : State X)
      → let (n, s₁) = allocate_node rapid key value s in
        find_first rapid name n s₁ ≡ some (true, s')
        → entry rapid s'.memory s'.document.doc (s₁.nodes n).rep_node ≡ (none, none)
  unfolding find_first
  reuse-Dangles laws name key value s s' =
      let a = allocate_node_lem rapid laws key value s in
      subst
        (λ q.
          find_first rapid name q.0 q.1 ≡ some (true, s')
          → entry rapid s'.memory s'.document.doc (q.1.nodes q.0).rep_node ≡ (none, none))
        (sym a.done)
        (λ e.
          let d = search_in-Filled rapid.document a.handle name a.after s' e in
          rw
            (
              a.at,
              d.doc,
              a.name_at,
              a.value_at,
              d.name_gone (omega (arith, a.name_at, a.there.name)),
              d.value_gone (omega (arith, a.value_at, a.there.value)),
            )
            refl)
