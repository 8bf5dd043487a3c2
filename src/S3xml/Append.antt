-- ===== src/S3xml/Append.antt =====
-- s3xml/s3_xml.cc: what `AppendToRoot` and `AppendNode` do to a document.
use cclab.Base.{
  map, ◌<◌, ◌≡◌, ◌≢◌, sym, ◌∙◌, ap, true, false, not, ◌||◌, Option, some, [], ◌∷◌, ◌++◌, ◌==◌,
  arith,
}
use mathlib.Core.Path.{ap₂, subst}
use cclab.Base.Pointers.{Ptr}
use cclab.Http.Strings.{Str}
use cclab.S3xml.Rapidxml.{c_string, Rapidxml}
use cclab.S3xml.Ops.{
  S3XmlNode, State, allocate_node, append_in, append_to_root, append_new_to_root, append_node,
  append_new_node,
}
use cclab.S3xml.Laws.{IsRapidxml}
use cclab.S3xml.Build.{
  entry, leaf-IsAlive, entries, entries-same, IsAlive, Keeps-IsAlive, Allocated, allocate_node_lem,
  append_in_lem,
}

module _ {ℓ} {X : Type ℓ} (rapid : Rapidxml X) (laws : IsRapidxml rapid) where
  -- The node `at` has one entry more, and is alive; what the other nodes that are alive hold is as before.
  pub record Grown (at : Ptr) (e : Option Str × Option Str) (s : State X) (o : Option (State X))
      : Type ℓ where
    pub after : State X
    pub done : o ≡ some after
    pub alive : IsAlive rapid at after
    pub last : entries rapid at after ≡ entries rapid at s ++ (e ∷ [])
    pub others :
        (m : Ptr)
        → m ≢ at
        → IsAlive rapid m s
        → IsAlive rapid m after × (entries rapid m after ≡ entries rapid m s)
    pub rnode : after.document.rnode ≡ s.document.rnode

  -- A node that is alive, without children.
  abbrev pub IsEmptyNode : Ptr → State X → Type 0
  IsEmptyNode n s = IsAlive rapid n s × (entries rapid n s ≡ [])

  -- A new node is the last child of `at`.
  append_new_lem :
      (at : Ptr) (name value : Str) (s : State X) (a : Allocated rapid laws name value s)
      → IsAlive rapid at s
      → (g : Grown at
          (some (c_string name), some (c_string value))
          s
          (append_in rapid at (a.after.nodes a.handle).rep_node a.after))
        × IsEmptyNode (g.after.nodes a.handle).rep_node g.after
  append_new_lem at name value s a v =
      let ne : (m : Ptr) → IsAlive rapid m s → m ≢ a.node = λ m w e. cc (a.fresh, w.node, e) in
      let known : (m : Ptr) → IsAlive rapid m s → IsAlive rapid m a.after = λ m w.
        Keeps-IsAlive rapid laws m s a.after a.keeps w (a.has_node m (ne m w) w.node)
          (a.children m (ne m w))
          (λ c i. a.parent c λ e. let t = w.child c i in cc (a.fresh, t.node, e)) in
      let same : (m : Ptr) → IsAlive rapid m s → entries rapid m a.after ≡ entries rapid m s =
        λ m w. entries-same rapid m s a.after a.keeps w (a.children m (ne m w)) in
      let d = append_in_lem rapid laws at a.node a.after (known at v) a.there a.alone in
      let g : Grown at (some (c_string name), some (c_string value)) s
          (append_in rapid at (a.after.nodes a.handle).rep_node a.after) =
        record {
          after = d.after;
          done = rw a.at d.done;
          alive = d.alive;
          last = d.last ∙ ap₂ (λ l e. l ++ (e ∷ [])) (same at v) a.holds;
          others = λ m e w. let (x, y) = d.others m e (known m w) in (x, y ∙ same m w);
          rnode = d.rnode ∙ a.rnode;
        } in
      let here : (d.after.nodes a.handle).rep_node ≡ a.node =
        ap (λ f. S3XmlNode.rep_node (f a.handle)) d.nodes ∙ a.at in
      let (alive, same_entries) =
        d.others a.node (λ e. ne at v (sym e)) (leaf-IsAlive rapid a.node a.after a.there a.leaf) in
      let none_below : entries rapid a.node d.after ≡ [] =
        same_entries ∙ ap (map (entry rapid a.after.memory a.after.document.doc)) a.leaf in
      (g, subst (λ n. IsEmptyNode n d.after) (sym here) (alive, none_below))

  -- With rapidxml as its manual says, and a root that is alive, `AppendToRoot(name, value)` gives
  -- the root one more child, the last, with the name and the value up to their first NUL; what the
  -- children of the other live nodes are called and hold is as before.
  pub append_new_to_root_refines :
      (name value : Str) (s : State X)
      → IsAlive rapid s.document.rnode s
      → Grown s.document.rnode
          (some (c_string name), some (c_string value))
          s
          (append_new_to_root rapid name value s)
  unfolding append_new_to_root
  append_new_to_root_refines name value s v =
      let a = allocate_node_lem rapid laws name value s in
      rw a.done (
        subst
          (λ at.
            Grown s.document.rnode (some (c_string name), some (c_string value)) s
              (append_in rapid at (a.after.nodes a.handle).rep_node a.after))
          (sym a.rnode) (append_new_lem s.document.rnode name value s a v).0)

  -- With rapidxml as its manual says, `AppendNode(name, value)` through a handle of the document's,
  -- whose node is alive, gives that node one more child, the last, with the name and the value up
  -- to their first NUL; what the children of the other live nodes are called and hold is as before.
  pub append_new_node_refines :
      (to : Ptr) (name value : Str) (s : State X)
      → to < s.memory.top
      → (s.nodes to).has_doc ≡ true
      → IsAlive rapid (s.nodes to).rep_node s
      → Grown
          (s.nodes to).rep_node
          (some (c_string name), some (c_string value))
          s
          (append_new_node rapid to name value s)
  unfolding append_new_node
  append_new_node_refines to name value s lt e v =
      let a = allocate_node_lem rapid laws name value s in
      let go_on : ((s.nodes to).rep_node == 0 || not (s.nodes to).has_doc) ≡ false =
        ground (arith, v.not_null) in
      let same : a.after.nodes to ≡ s.nodes to = a.nodes to lt in
      rw (a.done, go_on, same) (append_new_lem (s.nodes to).rep_node name value s a v).0

  -- What a node that `AllocateNode` has made is, once it stands in a document: it holds its entry there, and
  -- takes children.
  pub record Placed (at : Ptr) (e : Option Str × Option Str) (n : Ptr) (s : State X)
      (o : Option (State X)) : Type ℓ where
    pub grown : Grown at e s o
    pub empty_node : IsEmptyNode (grown.after.nodes n).rep_node grown.after

  -- With rapidxml as its manual says, and a root that is alive, `AppendToRoot` of a node that
  -- `AllocateNode` has just made gives the root one more child, the last, with the name and the
  -- value that were given, up to their first NUL, and leaves the children of the other live nodes. The node
  -- is alive there, without children, so that it takes some in its turn.
  pub append_to_root-Placed :
      (name value : Str) (s : State X)
      → IsAlive rapid s.document.rnode s
      → let (n, s₁) = allocate_node rapid name value s in
        Placed s.document.rnode
          (some (c_string name), some (c_string value))
          n
          s
          (append_to_root rapid n s₁)
  unfolding append_to_root
  append_to_root-Placed name value s v =
      let a = allocate_node_lem rapid laws name value s in
      let (g, empty) = append_new_lem s.document.rnode name value s a v in
      rw a.done (
        subst
          (λ at.
            Placed s.document.rnode (some (c_string name), some (c_string value)) a.handle s
              (append_in rapid at (a.after.nodes a.handle).rep_node a.after))
          (sym a.rnode) (record { grown = g; empty_node = empty }))

  -- With rapidxml as its manual says, `AppendNode` of a node that `AllocateNode` has just made does the same for
  -- a live node with a handle.
  pub append_node-Placed :
      (to : Ptr) (name value : Str) (s : State X)
      → to < s.memory.top
      → IsAlive rapid (s.nodes to).rep_node s
      → let (n, s₁) = allocate_node rapid name value s in
        Placed
          (s.nodes to).rep_node
          (some (c_string name), some (c_string value))
          n
          s
          (append_node rapid to n s₁)
  unfolding append_node
  append_node-Placed to name value s lt v =
      let a = allocate_node_lem rapid laws name value s in
      let (g, empty) = append_new_lem (s.nodes to).rep_node name value s a v in
      let go_on : ((s.nodes to).rep_node == 0) ≡ false = ground (arith, v.not_null) in
      rw (a.done, a.nodes to lt, go_on) (record { grown = g; empty_node = empty })
