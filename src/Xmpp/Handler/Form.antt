-- ===== src/Xmpp/Handler/Form.antt =====
-- What read_counts reads of a form whose fields xmpp_field_new has made.
use uwpx_push_server.Common.{
  ◌||◌, All, ◌≡◌, refl, ◌∙◌, Bool, true, false, String, some, List, [], ◌∷◌, ◌++◌, map, ◌==◌,
  if◌then◌else◌, Result, ok, err, out_of_range, invalid_argument, assertion_failed, type_error,
  reply_error, eq_iff, Bool-cases, inl, inr, ℤ, arith, is_empty,
}
use uwpx_push_server.Common.Decimal.Stoi.{stoi}
use uwpx_push_server.Xmpp.Strophe.{StropheLib, StropheLaws}
use uwpx_push_server.Xmpp.Build.{named, option_field, xmpp_field_new}
use uwpx_push_server.Xmpp.Handler.{Counts, kept, read_value, read_var, read_field, read_fields}

-- The var, the type and the value of a field.
abbrev pub Field : Type 0
Field = String × String × String

abbrev pub var_of : Field → String
var_of (var, type, value) = var

abbrev pub value_of : Field → String
value_of (var, type, value) = value

-- The numbers that a list of texts holds, where a text is a number or not one at all.
abbrev pub readable : Result ℤ → List ℤ → List ℤ
readable (ok n) rest = n ∷ rest
readable (err e) rest = rest

abbrev pub numbers : String → List Field → List ℤ
numbers var [] = []
numbers var (f ∷ fs) =
    let rest = numbers var fs in if var_of f == var then readable (stoi (value_of f)) rest else rest

abbrev pub last_or : ℤ → List ℤ → ℤ
last_or n [] = n
last_or n (m ∷ rest) = last_or m rest

-- A result of stoi that is no error but that of a text that is not a number.
abbrev pub NotOutOfRange : Result ℤ → Type 0
NotOutOfRange (ok n) = Unit {0}
NotOutOfRange (err invalid_argument) = Unit {0}
NotOutOfRange (err _) = ⊥

-- The value of the field is there, and no number that is out of the range of an int.
abbrev pub InRange : Field → Type 0
InRange f = (is_empty (value_of f) ≡ false) × NotOutOfRange (stoi (value_of f))

-- the fields that read_counts reads a number from
abbrev pub is_count : String → Bool
is_count var = var == "message-count" || var == "pending-subscription-count"

not_pending :
    (var : String) → (var == "message-count") ≡ true → (var == "pending-subscription-count") ≡ false
not_pending var h = rw ((eq_iff var "message-count").0 h)

module _ (lib : StropheLib) (laws : StropheLaws lib) where
  open lib use {Stanza, get_name, get_attribute, get_child_by_name, children, set_text, add_child}
  open laws use {
    child_named, name_set_name, name_set_attribute, name_add_child, attribute_set_name,
    attribute_set_attribute, attribute_add_child, children_blank, children_set_name,
    children_set_attribute, children_add_child, text_of_child, name_text,
  }

  value_node : String → Stanza
  value_node value = add_child (named lib "value") (set_text lib.blank value)

  name_of_field : (f : Field) → get_name (option_field lib f) ≡ some "field"
  unfolding xmpp_field_new
  name_of_field (var, type, value) = simp (name_add_child, name_set_attribute, name_set_name)

  var_of_field : (f : Field) → get_attribute (option_field lib f) "var" ≡ some (var_of f)
  unfolding xmpp_field_new
  var_of_field (var, type, value) = simp (attribute_add_child, attribute_set_attribute)

  value_of_field :
      (f : Field) → get_child_by_name (option_field lib f) "value" ≡ some (value_node (value_of f))
  unfolding xmpp_field_new value_node
  value_of_field (var, type, value) = simp (
    child_named, children_add_child, children_set_attribute, children_set_name, children_blank,
    name_add_child, name_set_name,
  )

  text_of_value :
      (value : String) → is_empty value ≡ false → lib.get_text (value_node value) ≡ some value
  unfolding value_node
  text_of_value value h =
      text_of_child _ value (simp (children_add_child, children_set_name, children_blank)) h

  -- the number in a field that xmpp_field_new has made
  read_value_lem :
      (f : Field) (n : ℤ)
      → is_empty (value_of f) ≡ false
      → read_value lib (option_field lib f) n ≡ kept n (stoi (value_of f))
  unfolding read_value
  read_value_lem (var, type, value) n h =
      rw (value_of_field (var, type, value), text_of_value value h)

  kept_readable :
      (n : ℤ) (r : Result ℤ) (rest : List ℤ)
      → NotOutOfRange r
      → (m : ℤ) × (kept n r ≡ ok m) × (last_or n (readable r rest) ≡ last_or m rest)
  kept_readable n (ok m) rest h = (m, refl, refl)
  kept_readable n (err invalid_argument) rest h = (n, refl, refl)
  kept_readable n (err type_error) rest h = absurd h
  kept_readable n (err out_of_range) rest h = absurd h
  kept_readable n (err reply_error) rest h = absurd h
  kept_readable n (err assertion_failed) rest h = absurd h

  -- the counts of the fields over the counts so far
  abbrev pub latest : List Field → Counts → Counts
  latest fs c = record {
    messages = last_or c.messages (numbers "message-count" fs);
    pending = last_or c.pending (numbers "pending-subscription-count" fs);
  }

  read_field_var :
      (f : Field) (c : Counts)
      → read_field lib (option_field lib f) c
        ≡ read_var lib (option_field lib f) c (some (var_of f))
  unfolding read_field
  read_field_var (var, type, value) c =
      rw (name_of_field (var, type, value), var_of_field (var, type, value))

  read_field_lem :
      (f : Field) (fs : List Field) (c : Counts)
      → InRange f
      → (c' : Counts) × (read_field lib (option_field lib f) c ≡ ok c')
        × (latest (f ∷ fs) c ≡ latest fs c')
  read_field_lem f fs c h = elim (Bool-cases (var_of f == "message-count")) [
    | inl first ↦
        let other = not_pending (var_of f) first in
        let (m, k, l) =
          kept_readable c.messages (stoi (value_of f)) (numbers "message-count" fs) h.1 in
        (
          record c { messages = m },
          read_field_var f c ∙ rw (first, read_value_lem f c.messages h.0, k),
          rw (first, other, l),
        )
    | inr no_first ↦ elim (Bool-cases (var_of f == "pending-subscription-count")) [
      | inl second ↦
          let (m, k, l) =
            kept_readable c.pending (stoi (value_of f)) (numbers "pending-subscription-count" fs)
              h.1 in
          (
            record c { pending = m },
            read_field_var f c ∙ rw (no_first, second, read_value_lem f c.pending h.0, k),
            rw (no_first, second, l),
          )
      | inr neither ↦ (c, read_field_var f c ∙ rw (no_first, neither), rw (no_first, neither))
    ]
  ]

  pub read_fields_lem :
      (fs : List Field) (rest : List Stanza) (c : Counts)
      → All InRange fs
      → read_fields lib (map (option_field lib) fs ++ rest) c ≡ read_fields lib rest (latest fs c)
  unfolding read_fields
  read_fields_lem [] rest c h = refl
  read_fields_lem (f ∷ fs) rest c h =
      let (c', e, l) = read_field_lem f fs c h.0 in rw (e, l) (read_fields_lem fs rest c' h.1)

  pub out_of_range_field :
      (f : Field) (c : Counts)
      → is_count (var_of f) ≡ true
      → is_empty (value_of f) ≡ false
      → stoi (value_of f) ≡ err out_of_range
      → read_field lib (option_field lib f) c ≡ err out_of_range
  out_of_range_field f c v n o =
      read_field_var f c
      ∙ ground (arith, read_value_lem f c.messages n, read_value_lem f c.pending n)
