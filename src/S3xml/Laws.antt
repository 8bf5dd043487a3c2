-- ===== src/S3xml/Laws.antt =====
-- s3xml/s3_xml.cc: what the code relies on in rapidxml, as its manual describes it: a node that is
-- allocated is new and alone, a node is appended behind the last child, names and values are not copied, and a search
-- compares names without regard to case.
use cclab.Base.{
  ◌≡◌, ◌≢◌, ◌≤◌, Bool, true, false, Option, none, some, List, [], ◌∷◌, ◌++◌, ◌==◌, ◌<◌,
  if◌then◌else◌,
}
use cclab.Base.Pointers.{Ptr}
use cclab.Http.Strings.{Str, is_same, lower}
use cclab.S3xml.Rapidxml.{Memory, NodeKind, Rapidxml, c_string}

-- A node has this name, in whatever case.
abbrev pub is_named : Str → Option Str → Bool
is_named name none = false
is_named name (some text) = is_same (lower name) (lower text)

-- The first node of the list that has the name, or null.
abbrev pub first_named : Str → (Ptr → Option Str) → List Ptr → Ptr
first_named name text [] = 0
first_named name text (n ∷ ns) =
    let rest = first_named name text ns in if is_named name (text n) then n else rest

-- The nodes behind `n` in the list.
abbrev pub behind : Ptr → List Ptr → List Ptr
behind n [] = []
behind n (c ∷ cs) = let rest = behind n cs in if c == n then cs else rest

module _ {ℓ} {X : Type ℓ} (rapid : Rapidxml X) where
  -- The name of a node, as a search or `print` reads it.
  abbrev pub name_text : Memory → X → Ptr → Option Str
  name_text m x n = m.text (rapid.name n x)

  -- The node `m` is the same in both documents, its place apart.
  pub record IsKept (m : Ptr) (x x' : X) : Type 0 where
    pub name : rapid.name m x' ≡ rapid.name m x
    pub value : rapid.value m x' ≡ rapid.value m x
    pub node : rapid.has_node m x ≡ true → rapid.has_node m x' ≡ true

  -- The node `n` is new, with this name and value.
  pub record IsAllocated (n name_at value_at : Ptr) (x x' : X) : Type 0 where
    pub not_null : n ≢ 0
    pub fresh : rapid.has_node n x ≡ false
    pub there : rapid.has_node n x' ≡ true
    pub name : rapid.name n x' ≡ name_at
    pub value : rapid.value n x' ≡ value_at
    pub alone : rapid.parent n x' ≡ 0
    pub leaf : rapid.children n x' ≡ []
    pub kept : (m : Ptr) → m ≢ n → IsKept m x x'
    pub places :
        (m : Ptr)
        → m ≢ n
        → (rapid.parent m x' ≡ rapid.parent m x) × (rapid.children m x' ≡ rapid.children m x)

  -- The node is the last child.
  pub record IsAppended (to child : Ptr) (x x' : X) : Type 0 where
    pub last : rapid.children to x' ≡ rapid.children to x ++ (child ∷ [])
    pub under : rapid.parent child x' ≡ to
    pub others : (m : Ptr) → m ≢ to → rapid.children m x' ≡ rapid.children m x
    pub parents : (m : Ptr) → m ≢ child → rapid.parent m x' ≡ rapid.parent m x
    pub kept : (m : Ptr) → IsKept m x x'

  -- The nodes and where they stand are the same.
  pub record IsSame (x x' : X) : Type 0 where
    pub kept : (m : Ptr) → IsKept m x x'
    pub parent : (m : Ptr) → rapid.parent m x' ≡ rapid.parent m x
    pub children : (m : Ptr) → rapid.children m x' ≡ rapid.children m x

  -- A copy of a C string in the pool, at a new address.
  pub record IsCopied (str : Str) (at : Ptr) (m m' : Memory) : Type 0 where
    pub text : m'.text at ≡ some (c_string str)
    pub after : m.top ≤ at
    pub below : at < m'.top
    pub others : (p : Ptr) → p < m.top → m'.text p ≡ m.text p

  pub record IsRapidxml : Type ℓ where
    pub document_there : (rapid.document ≢ 0) × (rapid.has_node rapid.document rapid.new ≡ true)
    pub document_empty : rapid.children rapid.document rapid.new ≡ []
    pub allocate_string :
        (str : Str) (x : X) (m : Memory)
        → let (at, x', m') = rapid.allocate_string str x m in IsSame x x' × IsCopied str at m m'
    pub allocate_attribute :
        (name value : Str) (x : X) → IsSame x (rapid.allocate_attribute name value x).1
    pub append_attribute :
        (n attribute : Ptr) (x : X) → IsSame x (rapid.append_attribute n attribute x)
    pub allocate_node :
        (k : NodeKind) (name value : Ptr) (x : X)
        → let (n, x') = rapid.allocate_node k name value x in IsAllocated n name value x x'
    pub append_node :
        (to child : Ptr) (x : X)
        → rapid.has_node to x ≡ true
        → rapid.has_node child x ≡ true
        → rapid.parent child x ≡ 0
        → (x' : X) × (rapid.append_node to child x ≡ some x') × IsAppended to child x x'
    pub first_node :
        (n : Ptr) (name : Str) (m : Memory) (x : X)
        → rapid.first_node n name m x ≡ first_named name (name_text m x) (rapid.children n x)
    pub next_sibling :
        (n : Ptr) (name : Str) (m : Memory) (x : X)
        → rapid.parent n x ≢ 0
        → rapid.next_sibling n name m x
          ≡ some (first_named name (name_text m x) (behind n (rapid.children (rapid.parent n x) x)))
