-- ===== src/S3xml/Rapidxml.antt =====
-- s3xml/s3_xml.cc: what the code uses of rapidxml, which is not part of the repository, and the strings
-- that a document points to.
use cclab.Base.{◌+◌, Bool, Option, none, some, List, [], ◌∷◌, ◌==◌, if◌then◌else◌}
use cclab.Base.Pointers.{Ptr, update}
use cclab.Http.Strings.{Str}

-- A `std::string`: its bytes, and what its `c_str()` is.
pub record Text : Type 0 where
  pub bytes : Str
  pub at : Ptr

-- The C strings, up to their NUL, at the addresses that are in use. `top` is the next address given.
pub record Memory : Type 0 where
  pub text : Ptr → Option Str
  pub top : Ptr

-- The bytes before the first NUL.
abbrev pub c_string : Str → Str
c_string [] = []
c_string (c ∷ cs) = if c == 0 then [] else c ∷ c_string cs

-- A new `std::string`
abbrev pub new_text : Str → Memory → Text × Memory
new_text s m = (
  record { bytes = s; at = m.top },
  record { text = update m.text m.top (some (c_string s)); top = m.top + 1 },
)

-- An assignment to a `std::string`, which ends what its `c_str()` was.
abbrev pub assign : Text → Str → Memory → Text × Memory
assign t s m = new_text s (record m { text = update m.text t.at none })

-- The `node_type`s that the code uses.
pub data NodeKind : Type 0 where
  node_pi node_element : NodeKind

-- The functions of rapidxml on a document `X` with its pool; 0 is the null pointer, and
-- `document` the document itself as a node. `append_node` and
-- `next_sibling` are `none` where an assertion fails. `parse` reads and writes the C string that it is given, and is
-- `false` where it throws. `parent` and `children` say where a node stands, `has_node` what has been allocated.
pub record Rapidxml {ℓ} (X : Type ℓ) : Type ℓ where
  pub new : X
  pub document : Ptr
  pub allocate_string : Str → X → Memory → Ptr × X × Memory
  pub allocate_node : NodeKind → (name value : Ptr) → X → Ptr × X
  pub allocate_attribute : (name value : Str) → X → Ptr × X
  pub append_node : (to child : Ptr) → X → Option X
  pub append_attribute : (to attribute : Ptr) → X → X
  pub name : Ptr → X → Ptr
  pub value : Ptr → X → Ptr
  pub parent : Ptr → X → Ptr
  pub children : Ptr → X → List Ptr
  pub has_node : Ptr → X → Bool
  pub first_node : Ptr → Str → Memory → X → Ptr
  pub next_sibling : Ptr → Str → Memory → X → Option Ptr
  pub parse : Ptr → X → Memory → Bool × X × Memory
  pub print : X → Memory → Str
