-- ===== src/S3xml/Build.antt =====
-- s3xml/s3_xml.cc: how `AllocateNode`, `AppendNode` and `AppendToRoot` build a document.
use cclab.Base.{
  map-end, ◌+◌, ◌<◌, ◌≡◌, ◌≢◌, refl, sym, ◌∙◌, ap, inl, inr, true, false, Option, some, List, [],
  ◌∷◌, ◌++◌, ◌==◌, map, Bool-cases, arith,
}
use mathlib.Core.Path.{ap₂, subst}
use cclab.Base.Pointers.{Ptr, update, has, has-append, Distinct, Distinct-append}
use cclab.Http.Strings.{Str}
use cclab.S3xml.Rapidxml.{Memory, c_string, Rapidxml, node_element}
use cclab.S3xml.Ops.{S3XmlNode, State, allocate_node, append_in, with_doc}
use cclab.S3xml.Laws.{IsAllocated, IsAppended, IsRapidxml}

module _ {ℓ} {X : Type ℓ} (rapid : Rapidxml X) where
  -- The name and the value of a node, as they are read.
  abbrev pub entry : Memory → X → Ptr → Option Str × Option Str
  entry m x n = (m.text (rapid.name n x), m.text (rapid.value n x))

  -- The entries of a node's children, in their order.
  abbrev pub entries : Ptr → State X → List (Option Str × Option Str)
  entries at s = map (entry s.memory s.document.doc) (rapid.children at s.document.doc)

  -- A node that points to strings that have been given.
  pub record IsThere (n : Ptr) (s : State X) : Type 0 where
    pub not_null : n ≢ 0
    pub node : rapid.has_node n s.document.doc ≡ true
    pub name : rapid.name n s.document.doc < s.memory.top
    pub value : rapid.value n s.document.doc < s.memory.top

  -- A node that is there with its children, of which it is the parent.
  pub record IsAlive (at : Ptr) (s : State X) : Type 0 where
    pub not_null : at ≢ 0
    pub node : rapid.has_node at s.document.doc ≡ true
    pub child : (c : Ptr) → has c (rapid.children at s.document.doc) ≡ true → IsThere c s
    pub parent :
        (c : Ptr)
        → has c (rapid.children at s.document.doc) ≡ true
        → rapid.parent c s.document.doc ≡ at
    pub distinct : Distinct (rapid.children at s.document.doc)

  map-same :
      {B : Type 0} (f g : Ptr → B) (ns : List Ptr)
      → ((n : Ptr) → has n ns ≡ true → f n ≡ g n)
      → map f ns ≡ map g ns
  map-same f g [] e = refl
  map-same f g (n ∷ ns) e = ap₂ ◌∷◌ (e n (ground arith)) (map-same f g ns λ m i. e m (ground arith))

  pub no_child : (c : Ptr) (ns : List Ptr) → ns ≡ [] → has c ns ≡ true → ⊥
  no_child c ns e i = cc (i, ap (has c) e)

  -- A node that is there, without children.
  pub leaf-IsAlive :
      (n : Ptr) (s : State X) → IsThere n s → rapid.children n s.document.doc ≡ [] → IsAlive n s
  leaf-IsAlive n s t e = record {
    not_null = t.not_null;
    node = t.node;
    child = λ c i. absurd (no_child c (rapid.children n s.document.doc) e i);
    parent = λ c i. absurd (no_child c (rapid.children n s.document.doc) e i);
    distinct = subst Distinct (sym e) tt;
  }

  -- What a state keeps of the nodes of another: their entries.
  pub record Keeps (s s' : State X) : Type 0 where
    pub kept : (n : Ptr) → IsThere n s → IsThere n s'
    pub same :
        (n : Ptr)
        → IsThere n s
        → entry s'.memory s'.document.doc n ≡ entry s.memory s.document.doc n

  pub entries-same :
      (at : Ptr) (s s' : State X)
      → Keeps s s'
      → IsAlive at s
      → rapid.children at s'.document.doc ≡ rapid.children at s.document.doc
      → entries at s' ≡ entries at s
  entries-same at s s' k a e =
      ap (map (entry s'.memory s'.document.doc)) e
      ∙ map-same (entry s'.memory s'.document.doc) (entry s.memory s.document.doc)
          (rapid.children at s.document.doc) (λ n m. k.same n (a.child n m))

  -- The state after `AllocateNode`.
  abbrev made : Str → Str → State X → State X
  made name value s =
      let t = s.memory.top in
      let r : S3XmlNode = record {
        name = record { bytes = name; at = t };
        value = record { bytes = value; at = t + 1 };
        has_doc = true;
        rep_node = 0;
      } in
      let (c, x) = rapid.allocate_node node_element t (t + 1) s.document.doc in
      record {
        document = record (s.document) {
          doc = x;
          sub_nodes = s.document.sub_nodes ++ ((t + 1 + 1) ∷ []);
        };
        nodes = update (update s.nodes (t + 1 + 1) r) (t + 1 + 1) (record r { rep_node = c });
        memory = record {
          text =
              update (update s.memory.text t (some (c_string name))) (t + 1)
                (some (c_string value));
          top = t + 1 + 1 + 1;
        };
      }

  allocate_node-made :
      (name value : Str) (s : State X)
      → allocate_node rapid name value s ≡ (s.memory.top + 1 + 1, made name value s)
  unfolding allocate_node
  allocate_node-made name value s =
      let self : (s.memory.top + 1 + 1 == s.memory.top + 1 + 1) ≡ true = ground arith in
      rw self refl

  module _ (laws : IsRapidxml rapid) where
    made-Keeps : (name value : Str) (s : State X) → Keeps s (made name value s)
    made-Keeps name value s =
        let t = s.memory.top in
        let x = s.document.doc in
        let (c, x') = rapid.allocate_node node_element t (t + 1) x in
        let a : IsAllocated rapid c t (t + 1) x x' = laws.allocate_node node_element t (t + 1) x in
        let ne : (n : Ptr) → IsThere n s → n ≢ c = λ n b e. cc (a.fresh, b.node, e) in
        record {
          kept = λ n b.
              let k = a.kept n (ne n b) in
              record {
                not_null = b.not_null;
                node = k.node b.node;
                name = omega (arith, k.name, b.name);
                value = omega (arith, k.value, b.value);
              };
          same = λ n b.
              let k = a.kept n (ne n b) in
              let far : (p : Ptr) → p < t → (p == t) ≡ false = λ p lt. ground arith in
              let far' : (p : Ptr) → p < t → (p == t + 1) ≡ false = λ p lt. ground arith in
              rw
                (
                  k.name,
                  k.value,
                  far (rapid.name n x) b.name,
                  far' (rapid.name n x) b.name,
                  far (rapid.value n x) b.value,
                  far' (rapid.value n x) b.value,
                )
                refl;
        }

    pub Keeps-IsAlive :
        (at : Ptr) (s s' : State X)
        → Keeps s s'
        → IsAlive at s
        → rapid.has_node at s'.document.doc ≡ true
        → rapid.children at s'.document.doc ≡ rapid.children at s.document.doc
        → ((c : Ptr)
            → has c (rapid.children at s.document.doc) ≡ true
            → rapid.parent c s'.document.doc ≡ rapid.parent c s.document.doc)
        → IsAlive at s'
    Keeps-IsAlive at s s' k a there e up = record {
      not_null = a.not_null;
      node = there;
      child = λ c m. k.kept c (a.child c (ap (has c) (sym e) ∙ m));
      parent = λ c m. let i = ap (has c) (sym e) ∙ m in up c i ∙ a.parent c i;
      distinct = subst Distinct (sym e) a.distinct;
    }

    -- What `AllocateNode` has made: a node that stands nowhere, with the name and the value.
    pub record Allocated (name value : Str) (s : State X) : Type ℓ where
      pub handle : Ptr
      pub after : State X
      pub done : allocate_node rapid name value s ≡ (handle, after)
      pub node : Ptr
      pub at : (after.nodes handle).rep_node ≡ node
      pub there : IsThere node after
      pub alone : rapid.parent node after.document.doc ≡ 0
      pub leaf : rapid.children node after.document.doc ≡ []
      pub holds :
          entry after.memory after.document.doc node ≡ (some (c_string name), some (c_string value))
      pub fresh : rapid.has_node node s.document.doc ≡ false
      pub keeps : Keeps s after
      pub name_at : rapid.name node after.document.doc ≡ (after.nodes handle).name.at
      pub value_at : rapid.value node after.document.doc ≡ (after.nodes handle).value.at
      pub rnode : after.document.rnode ≡ s.document.rnode
      pub children :
          (m : Ptr)
          → m ≢ node
          → rapid.children m after.document.doc ≡ rapid.children m s.document.doc
      pub has_node :
          (m : Ptr)
          → m ≢ node
          → rapid.has_node m s.document.doc ≡ true
          → rapid.has_node m after.document.doc ≡ true
      pub parent :
          (m : Ptr) → m ≢ node → rapid.parent m after.document.doc ≡ rapid.parent m s.document.doc
      pub nodes : (m : Ptr) → m < s.memory.top → after.nodes m ≡ s.nodes m

    pub allocate_node_lem : (name value : Str) (s : State X) → Allocated name value s
    allocate_node_lem name value s =
        let t = s.memory.top in
        let x = s.document.doc in
        let (c, x') = rapid.allocate_node node_element t (t + 1) x in
        let a : IsAllocated rapid c t (t + 1) x x' = laws.allocate_node node_element t (t + 1) x in
        let self : (t + 1 + 1 == t + 1 + 1) ≡ true = ground arith in
        let name_at : (t == t) ≡ true = ground arith in
        let name_at' : (t == t + 1) ≡ false = ground arith in
        let value_at : (t + 1 == t + 1) ≡ true = ground arith in
        record {
          handle = t + 1 + 1;
          after = made name value s;
          done = allocate_node-made name value s;
          node = c;
          at = rw self refl;
          there = record {
            not_null = a.not_null;
            node = a.there;
            name = omega (arith, a.name);
            value = omega (arith, a.value);
          };
          alone = a.alone;
          leaf = a.leaf;
          holds = rw (a.name, a.value, name_at, name_at', value_at) refl;
          fresh = a.fresh;
          keeps = made-Keeps name value s;
          name_at = rw self a.name;
          value_at = rw self a.value;
          rnode = refl;
          children = λ m e. (a.places m e).1;
          parent = λ m e. (a.places m e).0;
          has_node = λ m e. let k = a.kept m e in k.node;
          nodes = λ m lt. let e : (m == t + 1 + 1) ≡ false = ground arith in rw e refl;
        }

    -- What a node is after a child has been appended to it.
    pub record Appended (at c : Ptr) (s : State X) : Type ℓ where
      pub after : State X
      pub done : append_in rapid at c s ≡ some after
      pub alive : IsAlive at after
      pub last : entries at after ≡ entries at s ++ (entry s.memory s.document.doc c ∷ [])
      pub others :
          (m : Ptr) → m ≢ at → IsAlive m s → IsAlive m after × (entries m after ≡ entries m s)
      pub under : rapid.parent c after.document.doc ≡ at
      pub nodes : after.nodes ≡ s.nodes
      pub rnode : after.document.rnode ≡ s.document.rnode

    pub append_in_lem :
        (at c : Ptr) (s : State X)
        → IsAlive at s
        → IsThere c s
        → rapid.parent c s.document.doc ≡ 0
        → Appended at c s
    append_in_lem at c s a b alone =
        let x = s.document.doc in
        let (x', run, d) = laws.append_node at c x a.node b.node alone in
        let d' : IsAppended rapid at c x x' = d in
        let s' = with_doc rapid x' s in
        let k : Keeps s s' = record {
          kept = λ n t.
              let e = d'.kept n in
              record {
                not_null = t.not_null;
                node = e.node t.node;
                name = omega (arith, e.name, t.name);
                value = omega (arith, e.value, t.value);
              };
          same = λ n t. let e = d'.kept n in rw (e.name, e.value) refl;
        } in
        let stranger : (m : Ptr) → IsAlive m s → has c (rapid.children m x) ≡ false = λ m v.
          elim (Bool-cases (has c (rapid.children m x))) [
            | inl y ↦ absurd (v.not_null (sym (v.parent c y) ∙ alone))
            | inr z ↦ z
          ] in
        let same : map (entry s.memory x') (rapid.children at x) ≡ entries at s =
          map-same (entry s.memory x') (entry s.memory x) (rapid.children at x)
            (λ n m. k.same n (a.child n m)) in
        record {
          after = s';
          done = rw run refl;
          alive = record {
            not_null = a.not_null;
            node = let e = d'.kept at in e.node a.node;
            child = λ n m. elim (Bool-cases (has n (rapid.children at x))) [
              | inl y ↦ k.kept n (a.child n y)
              | inr z ↦
                  let e : n ≡ c = ground (
                    arith,
                    z,
                    ap (has n) (sym d'.last) ∙ m,
                    has-append n (rapid.children at x) (c ∷ []),
                  ) in
                  rw e (k.kept c b)
            ];
            parent = λ n m. elim (Bool-cases (n == c)) [
              | inl y ↦ let e : n ≡ c = ground arith in ap (λ q. rapid.parent q x') e ∙ d'.under
              | inr z ↦
                  d'.parents n (ground (arith, z))
                  ∙ a.parent n (
                      ground (
                        arith,
                        z,
                        ap (has n) (sym d'.last) ∙ m,
                        has-append n (rapid.children at x) (c ∷ []),
                      ))
            ];
            distinct =
                subst Distinct (sym d'.last)
                  (Distinct-append (rapid.children at x) c a.distinct (stranger at a));
          };
          last =
              ap (map (entry s.memory x')) d'.last
              ∙ map-end (entry s.memory x') (rapid.children at x) c
              ∙ ap₂ (λ l e. l ++ (e ∷ [])) same (k.same c b);
          others = λ m ne v.
              let e = d'.kept m in
              (
                Keeps-IsAlive m s s' k v (e.node v.node) (d'.others m ne)
                    (λ n i. d'.parents n λ f. cc (f, i, stranger m v)),
                entries-same m s s' k v (d'.others m ne),
              );
          under = d'.under;
          nodes = refl;
          rnode = refl;
        }
