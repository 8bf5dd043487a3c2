-- ===== src/S3xml/Tests.antt =====
-- s3xml/: the theorems at small documents, with lists of children for rapidxml.
use cclab.Base.{
  ℕ, suc, ◌+◌, ◌<◌, ◌≡◌, ◌≢◌, refl, true, false, not, ◌&&◌, ◌||◌, none, some, List, [], ◌∷◌, ◌++◌,
  ◌==◌, if◌then◌else◌, leb, arith,
}
use cclab.Base.Pointers.{Ptr, update, has}
use cclab.S3xml.Rapidxml.{Memory, c_string, Rapidxml}
use cclab.S3xml.Ops.{
  S3XmlNode, State, new_doc, allocate_node, append_to_root, append_new_to_root, append_new_node,
  find_first, fill_in, name_first, then_do,
}
use cclab.S3xml.Laws.{IsRapidxml, first_named, behind}
use cclab.S3xml.Build.{entry, entries, IsAlive}
use cclab.S3xml.Append.{
  Grown, Placed, append_new_to_root_refines, append_new_node_refines, append_to_root-Placed,
}
use cclab.S3xml.Document.{append_all, document_refines}
use cclab.S3xml.Find.{found-NoDoc, reuse-Dangles}
use cclab.S3xml.Read.{read_named, read_named_refines}

-- The nodes are 1, the document, and those up to `last`.
record Nodes : Type 0 where
  last : ℕ
  name : Ptr → Ptr
  value : Ptr → Ptr
  parent : Ptr → Ptr
  children : Ptr → List Ptr

abbrev no_nodes : Nodes
no_nodes = record { last = 0; name = λ n. 0; value = λ n. 0; parent = λ n. 0; children = λ n. [] }

abbrev lists : Rapidxml Nodes
lists = record {
  new = no_nodes;
  document = 1;
  allocate_string = λ str x m.
      (m.top, x, record { text = update m.text m.top (some (c_string str)); top = m.top + 1 });
  allocate_node = λ k a b x.
      let n = suc (suc x.last) in
      (
        n,
        record {
          last = suc x.last;
          name = update x.name n a;
          value = update x.value n b;
          parent = update x.parent n 0;
          children = update x.children n [];
        },
      );
  allocate_attribute = λ name value x. (0, x);
  append_node = λ to child x.
      if x.parent child == 0
      then some (record x {
        parent = update x.parent child to;
        children = update x.children to (x.children to ++ (child ∷ []));
      })
      else none;
  append_attribute = λ n a x. x;
  name = λ n x. x.name n;
  value = λ n x. x.value n;
  parent = λ n x. x.parent n;
  children = λ n x. x.children n;
  has_node = λ n x. not (n == 0) && leb n (suc x.last);
  first_node = λ n name m x. first_named name (λ c. m.text (x.name c)) (x.children n);
  next_sibling = λ n name m x.
      if x.parent n == 0
      then none
      else some (first_named name (λ c. m.text (x.name c)) (behind n (x.children (x.parent n))));
  parse = λ at x m. (false, x, m);
  print = λ x m. [];
}

lists-IsRapidxml : IsRapidxml lists
lists-IsRapidxml = record {
  document_there = ((λ e. omega (arith, e)), refl);
  document_empty = refl;
  allocate_string = λ str x m.
      let self : (m.top == m.top) ≡ true = ground arith in
      (
        record {
          kept = λ p. record { name = refl; value = refl; node = λ e. e };
          parent = λ p. refl;
          children = λ p. refl;
        },
        record {
          text = rw self refl;
          after = omega arith;
          below = omega arith;
          others = λ p lt. let e : (p == m.top) ≡ false = ground arith in rw e refl;
        },
      );
  allocate_attribute = λ name value x. record {
    kept = λ p. record { name = refl; value = refl; node = λ e. e };
    parent = λ p. refl;
    children = λ p. refl;
  };
  append_attribute = λ n a x. record {
    kept = λ p. record { name = refl; value = refl; node = λ e. e };
    parent = λ p. refl;
    children = λ p. refl;
  };
  allocate_node = λ k a b x.
      let n = suc (suc x.last) in
      let self : (n == n) ≡ true = ground arith in
      let other : (m : Ptr) → m ≢ n → (m == n) ≡ false = λ m e. ground arith in
      record {
        not_null = λ e. omega (arith, e);
        fresh = ground arith;
        there = ground arith;
        name = rw self refl;
        value = rw self refl;
        alone = rw self refl;
        leaf = rw self refl;
        kept = λ m e. record {
          name = rw (other m e) refl;
          value = rw (other m e) refl;
          node = λ i. ground (arith, i);
        };
        places = λ m e. (rw (other m e) refl, rw (other m e) refl);
      };
  append_node = λ to child x i j alone.
      let go_on : (x.parent child == 0) ≡ true = ground arith in
      let self : (to == to) ≡ true = ground arith in
      let self' : (child == child) ≡ true = ground arith in
      (
        record x {
          parent = update x.parent child to;
          children = update x.children to (x.children to ++ (child ∷ []));
        },
        rw go_on refl,
        record {
          last = rw self refl;
          under = rw self' refl;
          others = λ m e. let f : (m == to) ≡ false = ground arith in rw f refl;
          parents = λ m e. let f : (m == child) ≡ false = ground arith in rw f refl;
          kept = λ m. record { name = refl; value = refl; node = λ e. e };
        },
      );
  first_node = λ n name m x. refl;
  next_sibling = λ n name m x e. let f : (x.parent n == 0) ≡ false = ground arith in rw f refl;
}

-- The strings "R", "k" and "v", and the handles at 8, of the root, and elsewhere, of no node.
abbrev root_handle : S3XmlNode
root_handle = record {
  name = record { bytes = 82 ∷ []; at = 5 };
  value = record { bytes = []; at = 6 };
  has_doc = true;
  rep_node = 3;
}

abbrev new_handle : S3XmlNode
new_handle = record {
  name = record { bytes = []; at = 7 };
  value = record { bytes = []; at = 9 };
  has_doc = false;
  rep_node = 0;
}

abbrev strings : Memory
strings = record {
  text =
      update (update (update (λ p. some []) 1 (some (82 ∷ []))) 3 (some (107 ∷ []))) 4
        (some (118 ∷ []));
  top = 10;
}

-- A document with a header, and a root named "R" with one child.
abbrev one_entry : State Nodes
one_entry = record {
  document = record {
    rnode_str = record { bytes = 82 ∷ []; at = 1 };
    rnode_value = record { bytes = []; at = 2 };
    rnode = 3;
    doc = record {
      last = 3;
      name = λ n. if n == 4 then 3 else if n == 3 then 1 else 0;
      value = λ n. if n == 4 then 4 else if n == 3 then 2 else 0;
      parent = λ n. if n == 4 then 3 else if n == 3 || n == 2 then 1 else 0;
      children = λ n. if n == 1 then 2 ∷ 3 ∷ [] else if n == 3 then 4 ∷ [] else [];
    };
    sub_nodes = [];
  };
  nodes = λ p. if p == 8 then root_handle else new_handle;
  memory = strings;
}

one_entry-IsAlive : IsAlive lists 3 one_entry
one_entry-IsAlive = record {
  not_null = λ e. omega (arith, e);
  node = refl;
  child = λ c i.
      let e : c ≡ 4 = ground arith in
      rw e (record {
        not_null = λ f. omega (arith, f);
        node = refl;
        name = omega arith;
        value = omega arith;
      });
  parent = λ c i. let e : c ≡ 4 = ground arith in rw e refl;
  distinct = (refl, tt);
}

one_entry-apart :
    (c p : Ptr)
    → 4 < p
    → has c (4 ∷ []) ≡ true
    → (lists.name c one_entry.document.doc ≢ p) × (lists.value c one_entry.document.doc ≢ p)
one_entry-apart c p lt i =
    let e : c ≡ 4 = ground arith in rw e ((λ f. omega (arith, lt, f)), (λ f. omega (arith, lt, f)))

grown_root :
    Grown lists lists-IsRapidxml 3
      (some (107 ∷ []), some (119 ∷ []))
      one_entry
      (append_new_to_root lists (107 ∷ []) (119 ∷ 0 ∷ 1 ∷ []) one_entry)
grown_root =
    append_new_to_root_refines lists lists-IsRapidxml (107 ∷ []) (119 ∷ 0 ∷ 1 ∷ []) one_entry
      one_entry-IsAlive

grown_node :
    Grown lists lists-IsRapidxml 3
      (some (107 ∷ []), some (119 ∷ []))
      one_entry
      (append_new_node lists 8 (107 ∷ []) (119 ∷ []) one_entry)
grown_node =
    append_new_node_refines lists lists-IsRapidxml 8 (107 ∷ []) (119 ∷ []) one_entry (omega arith)
      refl one_entry-IsAlive

append_to_root-Placed_example :
    let (n, s₁) = allocate_node lists (107 ∷ []) (119 ∷ []) one_entry in
    Placed lists lists-IsRapidxml 3
      (some (107 ∷ []), some (119 ∷ []))
      n
      one_entry
      (append_to_root lists n s₁)
append_to_root-Placed_example =
    append_to_root-Placed lists lists-IsRapidxml (107 ∷ []) (119 ∷ []) one_entry one_entry-IsAlive

document_refines_example :
    (s' : State Nodes) × (then_do (new_doc lists (82 ∷ []) [] (λ p. new_handle) strings) (
        append_all lists lists-IsRapidxml
          (((107 ∷ []), (118 ∷ [])) ∷ ((75 ∷ []), (119 ∷ 0 ∷ [])) ∷ []))
      ≡ some s')
    × (entries lists s'.document.rnode s'
        ≡ (some (107 ∷ []), some (118 ∷ [])) ∷ (some (75 ∷ []), some (119 ∷ [])) ∷ [])
    × IsAlive lists s'.document.rnode s'
document_refines_example =
    document_refines lists lists-IsRapidxml (82 ∷ []) []
      (((107 ∷ []), (118 ∷ [])) ∷ ((75 ∷ []), (119 ∷ 0 ∷ [])) ∷ []) (λ p. new_handle) strings

abbrev found_root : State Nodes
found_root = fill_in lists 3 7 [] (name_first lists (82 ∷ []) 7 one_entry)

found_without_doc :
    ((found_root.nodes 7).rep_node ≢ 0)
    × (append_new_node lists 7 (107 ∷ []) (119 ∷ []) found_root ≡ none)
unfolding find_first
found_without_doc =
    found-NoDoc lists (82 ∷ []) (107 ∷ []) (119 ∷ []) 7 one_entry found_root refl refl

-- A node of the document's, with its handle, which then finds the root.
found_over : State Nodes
unfolding allocate_node
found_over =
    let (n, s₁) = allocate_node lists (107 ∷ []) (119 ∷ []) one_entry in
    fill_in lists 3 n [] (name_first lists (82 ∷ []) n s₁)

reuse-Dangles_example :
    let (n, s₁) = allocate_node lists (107 ∷ []) (119 ∷ []) one_entry in
    entry lists found_over.memory found_over.document.doc (s₁.nodes n).rep_node ≡ (none, none)
unfolding find_first allocate_node found_over
reuse-Dangles_example =
    reuse-Dangles lists lists-IsRapidxml (82 ∷ []) (107 ∷ []) (119 ∷ []) one_entry found_over refl

-- `FindFirstNode` for "K" and `NextSibling`
read_named_refines_example :
    (s' : State Nodes) × (read_named lists 2 8 (75 ∷ []) 7 one_entry ≡ some ((118 ∷ []) ∷ [], s'))
    × (s'.document.doc ≡ one_entry.document.doc)
read_named_refines_example =
    read_named_refines lists lists-IsRapidxml 2 8 7 (75 ∷ []) one_entry
      (((107 ∷ []), (118 ∷ [])) ∷ []) one_entry-IsAlive (λ c i. one_entry-apart c 7 (omega arith) i)
      (λ c i. one_entry-apart c 9 (omega arith) i) refl refl (omega arith)
