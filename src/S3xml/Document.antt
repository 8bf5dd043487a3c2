-- ===== src/S3xml/Document.antt =====
-- s3xml/s3_xml.cc: the constructor of `S3XmlDoc`, and the documents that `AppendToRoot` builds from it.
use cclab.Base.{
  ◌+◌, ◌<◌, ◌≡◌, ◌≢◌, refl, sym, ◌∙◌, ap, true, false, Option, some, List, [], ◌∷◌, ◌++◌, ◌==◌, map,
  append_assoc, append-nil, arith,
}
use mathlib.Core.Path.{ap₂, subst}
use cclab.Base.Pointers.{Ptr, update, Distinct}
use cclab.Http.Strings.{Str}
use cclab.S3xml.Rapidxml.{Memory, c_string, Rapidxml, node_pi, node_element}
use cclab.S3xml.Ops.{
  S3XmlNode, State, xml_header, xml_ns, xmlns, new_doc, then_do, append_new_to_root,
}
use cclab.S3xml.Laws.{IsAllocated, IsAppended, IsSame, IsCopied, IsRapidxml}
use cclab.S3xml.Build.{entry, entries, no_child, IsAlive}
use cclab.S3xml.Append.{append_new_to_root_refines}

module _ {ℓ} {X : Type ℓ} (rapid : Rapidxml X) (laws : IsRapidxml rapid) where
  IsSame-twice : {x y z : X} → IsSame rapid x y → IsSame rapid y z → IsSame rapid x z
  IsSame-twice f g = record {
    kept = λ m.
        let a = f.kept m in
        let b = g.kept m in
        record { name = b.name ∙ a.name; value = b.value ∙ a.value; node = λ e. b.node (a.node e) };
    parent = λ m. g.parent m ∙ f.parent m;
    children = λ m. g.children m ∙ f.children m;
  }

  -- A new document: a header, and behind it the root, which has the name and the value that were given, up to their
  -- first NUL, and no children.
  pub record IsNew (root_node value : Str) (o : Option (State X)) : Type ℓ where
    pub after : State X
    pub done : o ≡ some after
    pub header : Ptr
    pub children :
        rapid.children rapid.document after.document.doc ≡ header ∷ after.document.rnode ∷ []
    pub root :
        entry rapid after.memory after.document.doc after.document.rnode
        ≡ (some (c_string root_node), some (c_string value))
    pub alive : IsAlive rapid after.document.rnode after
    pub no_entries : entries rapid after.document.rnode after ≡ []

  -- The header is the document's only child.
  header_lem :
      (m : Memory)
      → let (h, x₁, m₃) = rapid.allocate_string xml_header rapid.new m in
        let (rot, x₂) = rapid.allocate_node node_pi h 0 x₁ in
        (x₃ : X) × (rapid.append_node rapid.document rot x₂ ≡ some x₃)
        × (rapid.has_node rapid.document x₃ ≡ true)
        × (rapid.children rapid.document x₃ ≡ rot ∷ [])
        × ((p : Ptr) → p < m.top → m₃.text p ≡ m.text p)
  header_lem m =
      let (h, x₁, m₃) = rapid.allocate_string xml_header rapid.new m in
      let (same, copied) = laws.allocate_string xml_header rapid.new m in
      let same' : IsSame rapid rapid.new x₁ = same in
      let copied' : IsCopied rapid xml_header h m m₃ = copied in
      let k = same'.kept rapid.document in
      let there : rapid.has_node rapid.document x₁ ≡ true = k.node laws.document_there.1 in
      let (rot, x₂) = rapid.allocate_node node_pi h 0 x₁ in
      let a : IsAllocated rapid rot h 0 x₁ x₂ = laws.allocate_node node_pi h 0 x₁ in
      let ne : rapid.document ≢ rot = λ e. cc (a.fresh, there, e) in
      let k₂ = a.kept rapid.document ne in
      let (x₃, run, d) = laws.append_node rapid.document rot x₂ (k₂.node there) a.there a.alone in
      let d' : IsAppended rapid rapid.document rot x₂ x₃ = d in
      let k₃ = d'.kept rapid.document in
      (
        x₃,
        run,
        k₃.node (k₂.node there),
        d'.last
            ∙ ap (λ l. l ++ (rot ∷ []))
                ((a.places rapid.document ne).1
                  ∙ same'.children rapid.document
                  ∙ laws.document_empty),
        copied'.others,
      )

  -- The root, as the constructor puts it into a document `x`.
  record IsRoot (n p q : Ptr) (x x' : X) : Type 0 where
    not_null : n ≢ 0
    there : rapid.has_node n x' ≡ true
    name : rapid.name n x' ≡ p
    value : rapid.value n x' ≡ q
    leaf : rapid.children n x' ≡ []
    last : rapid.children rapid.document x' ≡ rapid.children rapid.document x ++ (n ∷ [])

  root_lem :
      (p q : Ptr) (x : X)
      → rapid.has_node rapid.document x ≡ true
      → let (n, x₁) = rapid.allocate_node node_element p q x in
        let (attr, x₂) = rapid.allocate_attribute xmlns xml_ns x₁ in
        (x' : X) × (rapid.append_node rapid.document n (rapid.append_attribute n attr x₂) ≡ some x')
        × IsRoot n p q x x'
  root_lem p q x doc =
      let (n, x₁) = rapid.allocate_node node_element p q x in
      let b : IsAllocated rapid n p q x x₁ = laws.allocate_node node_element p q x in
      let ne : rapid.document ≢ n = λ e. cc (b.fresh, doc, e) in
      let (attr, x₂) = rapid.allocate_attribute xmlns xml_ns x₁ in
      let x₃ = rapid.append_attribute n attr x₂ in
      let g : IsSame rapid x₁ x₃ =
        IsSame-twice (laws.allocate_attribute xmlns xml_ns x₁) (laws.append_attribute n attr x₂) in
      let gd = g.kept rapid.document in
      let gr = g.kept n in
      let kd = b.kept rapid.document ne in
      let (x', run, f) =
        laws.append_node rapid.document n x₃ (gd.node (kd.node doc)) (gr.node b.there)
          (g.parent n ∙ b.alone) in
      let f' : IsAppended rapid rapid.document n x₃ x' = f in
      let fr = f'.kept n in
      (
        x',
        run,
        record {
          not_null = b.not_null;
          there = fr.node (gr.node b.there);
          name = fr.name ∙ gr.name ∙ b.name;
          value = fr.value ∙ gr.value ∙ b.value;
          leaf = f'.others n (λ e. ne (sym e)) ∙ g.children n ∙ b.leaf;
          last =
              f'.last
              ∙ ap (λ l. l ++ (n ∷ []))
                  (g.children rapid.document ∙ (b.places rapid.document ne).1);
        },
      )

  new_doc_lem :
      (root_node value : Str) (nodes : Ptr → S3XmlNode) (m : Memory)
      → IsNew root_node value (new_doc rapid root_node value nodes m)
  unfolding new_doc
  new_doc_lem root_node value nodes m =
      let t = m.top in
      let m₂ : Memory = record {
        text = update (update m.text t (some (c_string root_node))) (t + 1) (some (c_string value));
        top = t + 1 + 1;
      } in
      let (h, x₁, m₃) = rapid.allocate_string xml_header rapid.new m₂ in
      let (rot, x₂) = rapid.allocate_node node_pi h 0 x₁ in
      let (x₃, run, doc, first, kept) = header_lem m₂ in
      let (rnode, x₄) = rapid.allocate_node node_element t (t + 1) x₃ in
      let (x₇, run', root) = root_lem t (t + 1) x₃ doc in
      let r : IsRoot rnode t (t + 1) x₃ x₇ = root in
      let name_at : (t == t) ≡ true = ground arith in
      let name_at' : (t == t + 1) ≡ false = ground arith in
      let value_at : (t + 1 == t + 1) ≡ true = ground arith in
      record {
        after = record {
          document = record {
            rnode_str = record { bytes = root_node; at = t };
            rnode_value = record { bytes = value; at = t + 1 };
            rnode = rnode;
            doc = x₇;
            sub_nodes = [];
          };
          nodes = nodes;
          memory = m₃;
        };
        done = rw (run, run') refl;
        header = rot;
        children = r.last ∙ ap (λ l. l ++ (rnode ∷ [])) first;
        root =
            ap₂ (λ p q. (m₃.text p, m₃.text q)) r.name r.value
            ∙ rw (kept t (omega arith), kept (t + 1) (omega arith), name_at, name_at', value_at)
                refl;
        alive = record {
          not_null = r.not_null;
          node = r.there;
          child = λ c i. absurd (no_child rapid c (rapid.children rnode x₇) r.leaf i);
          parent = λ c i. absurd (no_child rapid c (rapid.children rnode x₇) r.leaf i);
          distinct = subst Distinct (sym r.leaf) tt;
        };
        no_entries = ap (map (entry rapid m₃ x₇)) r.leaf;
      }

  -- A program that calls `AppendToRoot` with names and values in turn.
  abbrev pub append_all : List (Str × Str) → State X → Option (State X)
  append_all [] s = some s
  append_all ((name, value) ∷ es) s =
      then_do (append_new_to_root rapid name value s) (append_all es)

  abbrev pub as_read : Str × Str → Option Str × Option Str
  as_read (name, value) = (some (c_string name), some (c_string value))

  append_all_lem :
      (es : List (Str × Str)) (s : State X)
      → IsAlive rapid s.document.rnode s
      → (s' : State X) × (append_all es s ≡ some s')
        × (entries rapid s'.document.rnode s' ≡ entries rapid s.document.rnode s ++ map as_read es)
        × IsAlive rapid s'.document.rnode s'
  append_all_lem [] s v = (s, refl, sym (append-nil (entries rapid s.document.rnode s)), v)
  append_all_lem ((name, value) ∷ es) s v =
      let g = append_new_to_root_refines rapid laws name value s v in
      let w : IsAlive rapid g.after.document.rnode g.after =
        subst (λ n. IsAlive rapid n g.after) (sym g.rnode) g.alive in
      let last : entries rapid g.after.document.rnode g.after
          ≡ entries rapid s.document.rnode s ++ (as_read (name, value) ∷ []) =
        ap (λ n. entries rapid n g.after) g.rnode ∙ g.last in
      let (s', run, all, u) = append_all_lem es g.after w in
      (
        s',
        rw g.done run,
        all
            ∙ ap (λ l. l ++ map as_read es) last
            ∙ append_assoc (entries rapid s.document.rnode s) (as_read (name, value) ∷ [])
                (map as_read es),
        u,
      )

  -- With rapidxml as its manual says, a new document to whose root names and values are appended in
  -- turn is built without a failure, and the root's children are those names and values, each up to
  -- its first NUL, in their order.
  pub document_refines :
      (root_node value : Str) (es : List (Str × Str)) (nodes : Ptr → S3XmlNode) (m : Memory)
      → (s' : State X) × (then_do (new_doc rapid root_node value nodes m) (append_all es) ≡ some s')
        × (entries rapid s'.document.rnode s' ≡ map as_read es)
        × IsAlive rapid s'.document.rnode s'
  document_refines root_node value es nodes m =
      let n = new_doc_lem root_node value nodes m in
      let (s', run, all, u) = append_all_lem es n.after n.alive in
      (s', rw n.done run, all ∙ ap (λ l. l ++ map as_read es) n.no_entries, u)
