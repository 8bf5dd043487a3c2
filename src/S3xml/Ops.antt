-- ===== src/S3xml/Ops.antt =====
-- s3xml/s3_xml.h, s3xml/s3_xml.cc: the classes `S3XmlNode` and `S3XmlDoc`.
use cclab.Base.{
  ◌+◌, Bool, true, false, not, ◌||◌, Option, none, some, List, [], ◌∷◌, ◌++◌, ◌==◌, if◌then◌else◌,
}
use cclab.Base.Pointers.{Ptr, update}
use cclab.Http.Strings.{Str}
use cclab.S3xml.Rapidxml.{Text, Memory, new_text, assign, node_pi, node_element, Rapidxml}

-- `S3XmlNode::Rep`; `has_doc` is false where `doc_` is null.
pub record S3XmlNode : Type 0 where
  pub name : Text
  pub value : Text
  pub has_doc : Bool
  pub rep_node : Ptr

-- `S3XmlDoc::Rep`
pub record S3XmlDoc {ℓ} (X : Type ℓ) : Type ℓ where
  pub rnode_str : Text
  pub rnode_value : Text
  pub rnode : Ptr
  pub doc : X
  pub sub_nodes : List Ptr

-- One document, the objects `S3XmlNode` by their addresses, and the strings.
pub record State {ℓ} (X : Type ℓ) : Type ℓ where
  pub document : S3XmlDoc X
  pub nodes : Ptr → S3XmlNode
  pub memory : Memory

-- "xml version='1.0' encoding='utf-8'"
abbrev pub xml_header : Str
xml_header =
    120 ∷ 109 ∷ 108 ∷ 32 ∷ 118 ∷ 101 ∷ 114 ∷ 115 ∷ 105 ∷ 111 ∷ 110 ∷ 61 ∷ 39 ∷ 49 ∷ 46 ∷ 48 ∷ 39
    ∷ 32 ∷ 101 ∷ 110 ∷ 99 ∷ 111 ∷ 100 ∷ 105 ∷ 110 ∷ 103 ∷ 61 ∷ 39 ∷ 117 ∷ 116 ∷ 102 ∷ 45 ∷ 56 ∷ 39
    ∷ []

-- "http://s3.amazonaws.com/doc/2006-03-01/"
abbrev pub xml_ns : Str
xml_ns =
    104 ∷ 116 ∷ 116 ∷ 112 ∷ 58 ∷ 47 ∷ 47 ∷ 115 ∷ 51 ∷ 46 ∷ 97 ∷ 109 ∷ 97 ∷ 122 ∷ 111 ∷ 110 ∷ 97
    ∷ 119 ∷ 115 ∷ 46 ∷ 99 ∷ 111 ∷ 109 ∷ 47 ∷ 100 ∷ 111 ∷ 99 ∷ 47 ∷ 50 ∷ 48 ∷ 48 ∷ 54 ∷ 45 ∷ 48 ∷ 51
    ∷ 45 ∷ 48 ∷ 49 ∷ 47 ∷ []

-- "xmlns"
abbrev pub xmlns : Str
xmlns = 120 ∷ 109 ∷ 108 ∷ 110 ∷ 115 ∷ []

abbrev pub is_empty : Str → Bool
is_empty [] = true
is_empty (_ ∷ _) = false

abbrev pub then_do {ℓ κ} : {A : Type ℓ} {B : Type κ} → Option A → (A → Option B) → Option B
then_do none f = none
then_do (some a) f = f a

module _ {ℓ} {X : Type ℓ} (rapid : Rapidxml X) where
  -- `S3XmlDoc::S3XmlDoc`, with a memory and no other object
  unfoldable pub new_doc : Str → Str → (Ptr → S3XmlNode) → Memory → Option (State X)
  new_doc root_node value nodes m =
      let (rnode_str, m₁) = new_text root_node m in
      let (rnode_value, m₂) = new_text value m₁ in
      let (header, x₁, m₃) = rapid.allocate_string xml_header rapid.new m₂ in
      let (rot, x₂) = rapid.allocate_node node_pi header 0 x₁ in
      then_do (rapid.append_node rapid.document rot x₂) (λ x₃.
        let (rnode, x₄) = rapid.allocate_node node_element rnode_str.at rnode_value.at x₃ in
        let (attr, x₅) = rapid.allocate_attribute xmlns xml_ns x₄ in
        let x₆ = rapid.append_attribute rnode attr x₅ in
        then_do (rapid.append_node rapid.document rnode x₆) (λ x₇. some (record {
          document = record {
            rnode_str = rnode_str;
            rnode_value = rnode_value;
            rnode = rnode;
            doc = x₇;
            sub_nodes = [];
          };
          nodes = nodes;
          memory = m₃;
        })))

  -- `new S3XmlNode`, with its `Rep`
  abbrev pub new_node : Str → Str → Bool → State X → Ptr × State X
  new_node name value has_doc s =
      let (name', m₁) = new_text name s.memory in
      let (value', m₂) = new_text value m₁ in
      (
        m₂.top,
        record s {
          nodes =
              update s.nodes m₂.top
                (record { name = name'; value = value'; has_doc = has_doc; rep_node = 0 });
          memory = record m₂ { top = m₂.top + 1 };
        },
      )

  abbrev pub with_doc : X → State X → State X
  with_doc x s = record s { document = record (s.document) { doc = x } }

  abbrev pub set_node : Ptr → S3XmlNode → State X → State X
  set_node n r s = record s { nodes = update s.nodes n r }

  -- `S3XmlDoc::AllocateNode`
  unfoldable pub allocate_node : Str → Str → State X → Ptr × State X
  allocate_node name value s =
      let (n, s₁) = new_node name value true s in
      let r = s₁.nodes n in
      let (node, x) = rapid.allocate_node node_element r.name.at r.value.at s₁.document.doc in
      (
        n,
        record s₁ {
          document = record (s₁.document) {
            doc = x;
            sub_nodes = s₁.document.sub_nodes ++ (n ∷ []);
          };
          nodes = update s₁.nodes n (record r { rep_node = node });
        },
      )

  abbrev pub append_in : (to child : Ptr) → State X → Option (State X)
  append_in to child s =
      then_do (rapid.append_node to child s.document.doc) (λ x. some (with_doc x s))

  -- `S3XmlDoc::AppendToRoot` of a node, and of a new one
  unfoldable pub append_to_root : Ptr → State X → Option (State X)
  append_to_root n s = append_in s.document.rnode (s.nodes n).rep_node s

  unfoldable pub append_new_to_root : Str → Str → State X → Option (State X)
  append_new_to_root name value s =
      let (n, s₁) = allocate_node name value s in
      append_in s₁.document.rnode (s₁.nodes n).rep_node s₁

  -- `S3XmlNode::AppendNode` of a node, and of a new one
  unfoldable pub append_node : (to n : Ptr) → State X → Option (State X)
  append_node to n s =
      if (s.nodes to).rep_node == 0
      then none
      else append_in (s.nodes to).rep_node (s.nodes n).rep_node s

  unfoldable pub append_new_node : Ptr → Str → Str → State X → Option (State X)
  append_new_node to name value s =
      let (n, s₁) = allocate_node name value s in
      if (s.nodes to).rep_node == 0 || not (s.nodes to).has_doc
      then none
      else append_in (s₁.nodes to).rep_node (s₁.nodes n).rep_node s₁

  -- `std::string value = node->value()`, which reads a C string.
  abbrev pub read_value : Ptr → State X → Option Str
  read_value node s = s.memory.text (rapid.value node s.document.doc)

  -- The three assignments of a `FindFirstNode` that has found `node`; the second reads a C string.
  abbrev pub name_first : Str → Ptr → State X → State X
  name_first name first s =
      let r = s.nodes first in
      let (name', m) = assign r.name name s.memory in
      record s { nodes = update s.nodes first (record r { name = name' }); memory = m }

  abbrev pub fill_in : Ptr → Ptr → Str → State X → State X
  fill_in node n v s =
      let r = s.nodes n in
      let (value', m) = assign r.value v s.memory in
      record s {
        nodes = update s.nodes n (record r { value = value'; rep_node = node });
        memory = m;
      }

  abbrev pub set_to : Ptr → Ptr → State X → Option (State X)
  set_to node n s =
      then_do (s.memory.text (rapid.value node s.document.doc)) (λ v. some (fill_in node n v s))

  abbrev pub and_reply : Bool → Option (State X) → Option (Bool × State X)
  and_reply b none = none
  and_reply b (some s) = some (b, s)

  -- `S3XmlNode::FindFirstNode` and `S3XmlDoc::FindFirstNode`
  abbrev pub search_in : Ptr → Str → Ptr → State X → Option (Bool × State X)
  search_in at name first s =
      let node = rapid.first_node at name s.memory s.document.doc in
      if node == 0
      then some (false, s)
      else and_reply true (set_to node first (name_first name first s))

  unfoldable pub find_first_node : Ptr → Str → Ptr → State X → Option (Bool × State X)
  find_first_node n name first s =
      if (s.nodes n).rep_node == 0 then none else search_in (s.nodes n).rep_node name first s

  unfoldable pub find_first : Str → Ptr → State X → Option (Bool × State X)
  find_first name first s = search_in rapid.document name first s

  -- `S3XmlNode::NextSibling`
  unfoldable pub next_sibling : Ptr → State X → Option (Bool × State X)
  next_sibling n s =
      let r = s.nodes n in
      if r.rep_node == 0 || is_empty r.name.bytes
      then none
      else then_do (rapid.next_sibling r.rep_node r.name.bytes s.memory s.document.doc)
          (λ node. if node == 0 then some (false, s) else and_reply true (set_to node n s))

  -- `S3XmlNode::name` and `S3XmlNode::value`
  abbrev pub node_name : Ptr → State X → Str
  node_name n s = (s.nodes n).name.bytes

  abbrev pub node_value : Ptr → State X → Str
  node_value n s = (s.nodes n).value.bytes

  -- `S3XmlDoc::ParseFromString` of a `std::string`
  unfoldable pub parse_from_string : Text → State X → Bool × State X
  parse_from_string xml_str s =
      let (done, x, m) = rapid.parse xml_str.at s.document.doc s.memory in
      (done, record (with_doc x s) { memory = m })

  -- `S3XmlDoc::ToString`
  unfoldable pub to_string : State X → Str
  to_string s = rapid.print s.document.doc s.memory
