-- ===== src/S3xml/Fill.antt =====
-- s3xml/s3_xml.cc: the handle that `FindFirstNode` and `NextSibling` fill in, and the strings that stay.
use cclab.Base.{◌<◌, ◌≤◌, ◌≡◌, ◌≢◌, refl, true, false, Option, some, List, ◌==◌, arith}
use cclab.Base.Pointers.{Ptr, has}
use cclab.Http.Strings.{Str}
use cclab.S3xml.Rapidxml.{Text, Memory, assign, Rapidxml}
use cclab.S3xml.Ops.{S3XmlNode, State, fill_in, set_to}
use cclab.S3xml.Laws.{name_text}
use cclab.S3xml.Build.{IsAlive}
use cclab.S3xml.Search.{AreRead, AreRead-same}

module _ {ℓ} {X : Type ℓ} (rapid : Rapidxml X) where
  -- What a node's value is read as.
  abbrev pub value_text : Memory → X → Ptr → Option Str
  value_text m x n = m.text (rapid.value n x)

  -- The strings of a handle are not those of a node's children.
  abbrev pub IsApart : Ptr → Text → State X → Type 0
  IsApart at t s =
      (c : Ptr)
      → has c (rapid.children at s.document.doc) ≡ true
      → (rapid.name c s.document.doc ≢ t.at) × (rapid.value c s.document.doc ≢ t.at)

  -- A state in which a node is read through the handle `n`.
  pub record IsReading (at n : Ptr) (name : Str) (s : State X) : Type 0 where
    pub alive : IsAlive rapid at s
    pub named : (s.nodes n).name.bytes ≡ name
    pub apart : IsApart at (s.nodes n).value s

  pub assign_text :
      (t : Text) (str : Str) (m : Memory) (p : Ptr)
      → p ≢ t.at
      → p < m.top
      → (assign t str m).1.text p ≡ m.text p
  assign_text t str m p ne lt =
      let e : (p == m.top) ≡ false = ground arith in
      let f : (p == t.at) ≡ false = ground arith in rw (e, f) refl

  -- A state with the same document, in which the strings of a node's children are the same.
  pub record IsView (at : Ptr) (s s' : State X) : Type ℓ where
    pub doc : s'.document.doc ≡ s.document.doc
    pub top : s.memory.top ≤ s'.memory.top
    pub same :
        (c : Ptr)
        → has c (rapid.children at s.document.doc) ≡ true
        → (name_text rapid s'.memory s'.document.doc c ≡ name_text rapid s.memory s.document.doc c)
          × (value_text s'.memory s'.document.doc c ≡ value_text s.memory s.document.doc c)

  pub assign-IsView :
      (at : Ptr) (t : Text) (str : Str) (s : State X) (nodes : Ptr → S3XmlNode)
      → IsAlive rapid at s
      → IsApart at t s
      → IsView at s (record s { nodes = nodes; memory = (assign t str s.memory).1 })
  assign-IsView at t str s nodes v a = record {
    doc = refl;
    top = omega arith;
    same = λ c i.
        let (x, y) = a c i in
        let z = v.child c i in
        (
          assign_text t str s.memory (rapid.name c s.document.doc) x z.name,
          assign_text t str s.memory (rapid.value c s.document.doc) y z.value,
        );
  }

  pub assign-IsAlive :
      (at : Ptr) (m : Memory) (s : State X) (nodes : Ptr → S3XmlNode)
      → s.memory.top ≤ m.top
      → IsAlive rapid at s
      → IsAlive rapid at (record s { nodes = nodes; memory = m })
  assign-IsAlive at m s nodes le v = record {
    not_null = v.not_null;
    node = v.node;
    child = λ c i.
        let t = v.child c i in
        record {
          not_null = t.not_null;
          node = t.node;
          name = omega (arith, le, t.name);
          value = omega (arith, le, t.value);
        };
    parent = v.parent;
    distinct = v.distinct;
  }

  -- The step of both functions that fills in the handle.
  pub record IsFilled (at n node : Ptr) (name v : Str) (s : State X) : Type ℓ where
    pub done : set_to rapid node n s ≡ some (fill_in rapid node n v s)
    pub view : IsView at s (fill_in rapid node n v s)
    pub reading : IsReading at n name (fill_in rapid node n v s)
    pub rep_node : ((fill_in rapid node n v s).nodes n).rep_node ≡ node
    pub value : ((fill_in rapid node n v s).nodes n).value.bytes ≡ v

  pub fill_in_lem :
      (at n node : Ptr) (name v : Str) (s : State X)
      → IsReading at n name s
      → value_text s.memory s.document.doc node ≡ some v
      → IsFilled at n node name v s
  fill_in_lem at n node name v s r e =
      let self : (n == n) ≡ true = ground arith in
      let s' = fill_in rapid node n v s in
      record {
        done = rw e refl;
        view = assign-IsView at (s.nodes n).value v s s'.nodes r.alive r.apart;
        reading = record {
          alive = assign-IsAlive at s'.memory s s'.nodes (omega arith) r.alive;
          named = rw self r.named;
          apart = λ c i.
              let a = r.alive in
              let t = a.child c i in
              rw self ((λ f. omega (arith, t.name, f)), (λ f. omega (arith, t.value, f)));
        };
        rep_node = rw self refl;
        value = rw self refl;
      }

  pub IsView-AreRead :
      (at : Ptr) (s s' : State X) (ns : List Ptr) (es : List (Str × Str))
      → IsView at s s'
      → ((c : Ptr) → has c ns ≡ true → has c (rapid.children at s.document.doc) ≡ true)
      → AreRead (name_text rapid s.memory s.document.doc) (value_text s.memory s.document.doc) ns es
      → AreRead
          (name_text rapid s'.memory s'.document.doc)
          (value_text s'.memory s'.document.doc)
          ns
          es
  IsView-AreRead at s s' ns es v sub r =
      AreRead-same (name_text rapid s.memory s.document.doc) (value_text s.memory s.document.doc)
        (name_text rapid s'.memory s'.document.doc) (value_text s'.memory s'.document.doc) ns es
        (λ c i. v.same c (sub c i)) r
