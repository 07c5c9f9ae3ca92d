-- ===== src/Xmpp/Strophe/Tree.antt =====
-- Stanzas as trees, with the documented behaviour: they serve the tests. What a stanza is written
-- as is left at its name.
use uwpx_push_server.Common.{
  ◌≡◌, refl, ap, String, ◌&◌, Option, none, some, List, [], ◌∷◌, ◌++◌, ◌==◌, if◌then◌else◌, arith,
  is_empty, false,
}
use uwpx_push_server.Xmpp.Strophe.{StropheLib, StropheLaws, first_named}

mutual
  pub data Tree : Type 0 where
    element : Option String → (String → Option String) → Forest → Tree
    content : String → Tree

  pub data Forest : Type 0 where
    nil : Forest
    cons : Tree → Forest → Forest

listed : Forest → List Tree
listed nil = []
listed (cons t ts) = t ∷ listed ts

children : Tree → List Tree
unfolding listed
children (element n a ts) = listed ts
children (content t) = []

snoc : Forest → Tree → Forest
snoc nil c = cons c nil
snoc (cons t ts) c = cons t (snoc ts c)

name : Tree → Option String
name (element n a ts) = n
name (content t) = none

attribute : Tree → String → Option String
attribute (element n a ts) k = a k
attribute (content t) k = none

set_name : Tree → String → Tree
set_name (element n a ts) m = element (some m) a ts
set_name (content t) m = element (some m) (λ _. none) nil

set_attribute : Tree → String → String → Tree
set_attribute (element n a ts) k v = element n (λ j. if k == j then some v else a j) ts
set_attribute (content t) k v = element none (λ j. if k == j then some v else none) nil

add_child : Tree → Tree → Tree
unfolding snoc
add_child (element n a ts) c = element n a (snoc ts c)
add_child (content t) c = element none (λ _. none) (cons c nil)

empty_element : Tree
empty_element = element none (λ _. none) nil

-- the texts of the children, where there are any
own_text : Tree → String
own_text (content t) = t
own_text _ = ""

texts : Forest → String
unfolding own_text
texts nil = ""
texts (cons t nil) = own_text t
texts (cons t ts) = own_text t & texts ts

non_empty : String → Option String
non_empty s = if is_empty s then none else some s

text : Tree → Option String
unfolding texts non_empty
text (content t) = non_empty t
text (element n a ts) = non_empty (texts ts)

unfoldable pub tree : StropheLib
unfolding children name attribute set_name set_attribute add_child empty_element text
tree = record {
  Stanza = Tree;
  blank = empty_element;
  iq_new = λ t i. set_attribute (set_attribute (set_name empty_element "iq") "type" t) "id" i;
  presence_new = set_name empty_element "presence";
  set_name = set_name;
  set_attribute = set_attribute;
  set_ns = λ s n. set_attribute s "xmlns" n;
  set_text = λ s t. content t;
  add_child = add_child;
  get_name = name;
  get_attribute = attribute;
  get_ns = λ s. attribute s "xmlns";
  get_child_by_name = λ s n. first_named name n (children s);
  children = children;
  get_text = text;
  to_text = λ s. some ("", 0);
}

listed-snoc : (ts : Forest) (c : Tree) → listed (snoc ts c) ≡ listed ts ++ c ∷ []
unfolding listed snoc
listed-snoc nil c = refl
listed-snoc (cons t ts) c = ap (λ (xs : List Tree). t ∷ xs) (listed-snoc ts c)

children_of_empty : children empty_element ≡ []
unfolding children empty_element listed
children_of_empty = refl

set_name_lem : (s : Tree) (n : String) → name (set_name s n) ≡ some n
unfolding name set_name
set_name_lem (element m a ts) n = refl
set_name_lem (content t) n = refl

name-set_attribute : (s : Tree) (k v : String) → name (set_attribute s k v) ≡ name s
unfolding name set_attribute
name-set_attribute (element m a ts) k v = refl
name-set_attribute (content t) k v = refl

name-add_child : (s c : Tree) → name (add_child s c) ≡ name s
unfolding name add_child
name-add_child (element m a ts) c = refl
name-add_child (content t) c = refl

attribute-set_name : (s : Tree) (n j : String) → attribute (set_name s n) j ≡ attribute s j
unfolding attribute set_name
attribute-set_name (element m a ts) n j = refl
attribute-set_name (content t) n j = refl

attribute-set_attribute :
    (s : Tree) (k v j : String)
    → attribute (set_attribute s k v) j ≡ (if k == j then some v else attribute s j)
unfolding attribute set_attribute
attribute-set_attribute (element m a ts) k v j = refl
attribute-set_attribute (content t) k v j = refl

attribute-add_child : (s c : Tree) (j : String) → attribute (add_child s c) j ≡ attribute s j
unfolding attribute add_child
attribute-add_child (element m a ts) c j = refl
attribute-add_child (content t) c j = refl

children-set_name : (s : Tree) (n : String) → children (set_name s n) ≡ children s
unfolding children set_name listed
children-set_name (element m a ts) n = refl
children-set_name (content t) n = refl

children-set_attribute : (s : Tree) (k v : String) → children (set_attribute s k v) ≡ children s
unfolding children set_attribute listed
children-set_attribute (element m a ts) k v = refl
children-set_attribute (content t) k v = refl

children-add_child : (s c : Tree) → children (add_child s c) ≡ children s ++ c ∷ []
unfolding children add_child listed
children-add_child (element m a ts) c = listed-snoc ts c
children-add_child (content t) c = refl

first_text : List Tree → String
unfolding own_text
first_text [] = ""
first_text (c ∷ cs) = own_text c

text_of_child :
    (s : Tree) (t : String) → children s ≡ content t ∷ [] → is_empty t ≡ false → text s ≡ some t
unfolding children text texts listed non_empty own_text first_text
text_of_child (element m a nil) t h e = absurd (ground arith)
text_of_child (element m a (cons c nil)) t h e =
    let own : own_text c ≡ t = ap first_text h in rw (own, e)
text_of_child (element m a (cons c (cons d ts))) t h e = absurd (ground arith)
text_of_child (content u) t h e = absurd (ground arith)

pub tree_laws : StropheLaws tree
unfolding tree children
tree_laws = record {
  iq_new_set = λ t i. refl;
  set_ns_attribute = λ s n. refl;
  get_ns_attribute = λ s. refl;
  child_named = λ s n. refl;
  name_set_name = λ s n. set_name_lem s n;
  name_set_attribute = name-set_attribute;
  name_add_child = name-add_child;
  name_text = λ t. refl;
  attribute_set_name = attribute-set_name;
  attribute_set_attribute = attribute-set_attribute;
  attribute_add_child = attribute-add_child;
  children_blank = children_of_empty;
  children_set_name = children-set_name;
  children_set_attribute = children-set_attribute;
  children_add_child = children-add_child;
  text_of_child = text_of_child;
}
