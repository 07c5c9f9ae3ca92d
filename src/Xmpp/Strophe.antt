-- ===== src/Xmpp/Strophe.antt =====
-- libstrophe, which is not part of the repository: the functions on stanzas that the code calls, as
-- the fields of a record, and their documented behaviour. Stanzas are values: a setter gives the
-- stanza as it is after the call. `none` is a null pointer.
pub mod Tree
use uwpx_push_server.Common.{
  inr, inl, Bool-cases, arith, ◌≡◌, ℕ, Bool, true, false, String, Option, none, some, List, [], ◌∷◌,
  ◌++◌, ◌==◌, if◌then◌else◌, is_empty,
}

pub record StropheLib : Type 1 where
  pub Stanza : Type 0
  -- xmpp_stanza_new, xmpp_iq_new (of a type and an id), xmpp_presence_new
  pub blank : Stanza
  pub iq_new : String → String → Stanza
  pub presence_new : Stanza
  pub set_name : Stanza → String → Stanza
  pub set_attribute : Stanza → String → String → Stanza
  pub set_ns : Stanza → String → Stanza
  pub set_text : Stanza → String → Stanza
  -- at the end of the children
  pub add_child : Stanza → Stanza → Stanza
  pub get_name : Stanza → Option String
  pub get_attribute : Stanza → String → Option String
  pub get_ns : Stanza → Option String
  pub get_child_by_name : Stanza → String → Option Stanza
  -- get_children and get_next
  pub children : Stanza → List Stanza
  pub get_text : Stanza → Option String
  -- the text and its length in bytes
  pub to_text : Stanza → Option (String × ℕ)

abbrev pub is_named : String → Option String → Bool
is_named n none = false
is_named n (some m) = m == n

-- the first of some stanzas that has the name
abbrev pub first_named : {S : Type 0} → (S → Option String) → String → List S → Option S
first_named name_of n [] = none
first_named name_of n (c ∷ cs) =
    let rest = first_named name_of n cs in if is_named n (name_of c) then some c else rest

-- What is found stays found when another follows.
pub first_named-append :
    {S : Type 0} (name_of : S → Option String) (n : String) (cs : List S) (c d : S)
    → first_named name_of n cs ≡ some c
    → first_named name_of n (cs ++ d ∷ []) ≡ some c
first_named-append name_of n [] c d h = absurd (ground arith)
first_named-append name_of n (e ∷ cs) c d h = elim (Bool-cases (is_named n (name_of e))) [
  | inl here ↦ rw here (rw here at h)
  | inr further ↦ rw further (first_named-append name_of n cs c d (rw further at h))
]

module _ (lib : StropheLib) where
  open lib use {
    Stanza, blank, iq_new, set_name, set_attribute, set_ns, set_text, add_child, get_name,
    get_attribute, get_ns, get_child_by_name, children, get_text,
  }

  pub record StropheLaws : Type 0 where
    pub iq_new_set :
        (t i : String)
        → iq_new t i ≡ set_attribute (set_attribute (set_name blank "iq") "type" t) "id" i
    pub set_ns_attribute : (s : Stanza) (n : String) → set_ns s n ≡ set_attribute s "xmlns" n
    pub get_ns_attribute : (s : Stanza) → get_ns s ≡ get_attribute s "xmlns"
    pub child_named :
        (s : Stanza) (n : String) → get_child_by_name s n ≡ first_named get_name n (children s)
    pub name_set_name : (s : Stanza) (n : String) → get_name (set_name s n) ≡ some n
    pub name_set_attribute :
        (s : Stanza) (k v : String) → get_name (set_attribute s k v) ≡ get_name s
    pub name_add_child : (s c : Stanza) → get_name (add_child s c) ≡ get_name s
    pub name_text : (t : String) → get_name (set_text blank t) ≡ none
    pub attribute_set_name :
        (s : Stanza) (n j : String) → get_attribute (set_name s n) j ≡ get_attribute s j
    pub attribute_set_attribute :
        (s : Stanza) (k v j : String)
        → get_attribute (set_attribute s k v) j ≡ (if k == j then some v else get_attribute s j)
    pub attribute_add_child :
        (s c : Stanza) (j : String) → get_attribute (add_child s c) j ≡ get_attribute s j
    pub children_blank : children blank ≡ []
    pub children_set_name : (s : Stanza) (n : String) → children (set_name s n) ≡ children s
    pub children_set_attribute :
        (s : Stanza) (k v : String) → children (set_attribute s k v) ≡ children s
    pub children_add_child : (s c : Stanza) → children (add_child s c) ≡ children s ++ c ∷ []
    pub text_of_child :
        (s : Stanza) (t : String)
        → children s ≡ set_text blank t ∷ []
        → is_empty t ≡ false
        → get_text s ≡ some t
