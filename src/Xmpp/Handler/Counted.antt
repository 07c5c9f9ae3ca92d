-- ===== src/Xmpp/Handler/Counted.antt =====
-- xmpp/XmppClient.cpp: the counts that send_v2_push reads of a form, and the forms that end it.
use mathlib.Core.List.{append-nil}
use uwpx_push_server.Common.{
  All, ◌≡◌, refl, ◌∙◌, true, false, String, some, List, [], ◌∷◌, ◌++◌, map, ◌==◌, ok, err,
  out_of_range, invalid_argument, assertion_failed, eq_iff, Bool-cases, inl, inr, ℤ, pos, arith,
  is_empty,
}
use uwpx_push_server.Common.Decimal.Stoi.{stoi, IsInt, stoi-to_string}
use uwpx_push_server.Common.Decimal.{to_string}
use uwpx_push_server.Xmpp.Handler.Form.{
  Field, var_of, value_of, numbers, last_or, NotOutOfRange, InRange, is_count, latest,
  read_fields_lem, out_of_range_field,
}
use uwpx_push_server.Xmpp.Strophe.{StropheLib, StropheLaws}
use uwpx_push_server.Xmpp.Build.{option_field}
use uwpx_push_server.Xmpp.Handler.{no_counts, read_field, read_fields, read_counts}

stoi_empty : stoi "" ≡ err invalid_argument
unfolding stoi
stoi_empty = refl

printed_not_empty : (z : ℤ) → IsInt z → is_empty (to_string z) ≡ false
unfolding is_empty
printed_not_empty z h = elim (Bool-cases (to_string z == "")) [
  | inl e ↦
      absurd
        (ground (arith, rw ((eq_iff (to_string z) "").0 e, stoi_empty) at (stoi-to_string z h)))
  | inr e ↦ e
]

printed-NotOutOfRange : (z : ℤ) → IsInt z → NotOutOfRange (stoi (to_string z))
printed-NotOutOfRange z h = rw (stoi-to_string z h) tt

module _ (lib : StropheLib) (laws : StropheLaws lib) where
  open lib use {Stanza, get_child_by_name, children, set_text}
  open laws use {name_text}

  module _ (notification x : Stanza) (form : get_child_by_name notification "x" ≡ some x) where
    -- Of a form whose fields xmpp_field_new has made, none with an empty value or a number that is
    -- out of the range of an int, read_counts reads the last number of the fields for each count,
    -- and 0 where there is none. Texts that are no numbers, and all other fields, are passed over.
    pub read_counts_lem :
        (fs : List Field)
        → children x ≡ map (option_field lib) fs
        → All InRange fs
        → read_counts lib notification
          ≡ ok (record {
            messages = last_or (pos 0) (numbers "message-count" fs);
            pending = last_or (pos 0) (numbers "pending-subscription-count" fs);
          })
    unfolding read_counts read_fields
    read_counts_lem fs e h =
        rw (form, e)
          (rw (append-nil (map (option_field lib) fs)) at
            (read_fields_lem lib laws fs [] no_counts h))

    -- The two numbers that a form gives in the texts of its fields are read back.
    pub read_counts-to_string :
        (a b : ℤ) (t u w : String)
        → children x
          ≡ map (option_field lib) (
              ("FORM_TYPE", "hidden", w)
              ∷ ("message-count", t, to_string a)
              ∷ ("pending-subscription-count", u, to_string b)
              ∷ [])
        → is_empty w ≡ false
        → NotOutOfRange (stoi w)
        → IsInt a
        → IsInt b
        → read_counts lib notification ≡ ok (record { messages = a; pending = b })
    read_counts-to_string a b t u w e n v p q =
        read_counts_lem
          (("FORM_TYPE", "hidden", w)
            ∷ ("message-count", t, to_string a)
            ∷ ("pending-subscription-count", u, to_string b)
            ∷ [])
          e
          (
            (n, v),
            (
              (printed_not_empty a p, printed-NotOutOfRange a p),
              ((printed_not_empty b q, printed-NotOutOfRange b q), tt),
            ),
          )
        ∙ rw (stoi-to_string a p, stoi-to_string b q)

    -- A field for one of the counts whose text is a number out of the range of an int, behind
    -- fields that are read, ends the run with the exception of stoi, which read_counts does not
    -- catch.
    pub read_counts_out_of_range :
        (before : List Field) (f : Field) (after : List Stanza)
        → children x ≡ map (option_field lib) before ++ option_field lib f ∷ after
        → All InRange before
        → is_count (var_of f) ≡ true
        → is_empty (value_of f) ≡ false
        → stoi (value_of f) ≡ err out_of_range
        → read_counts lib notification ≡ err out_of_range
    unfolding read_counts read_fields
    read_counts_out_of_range before f after e h v n o =
        rw (form, e)
          (read_fields_lem lib laws before (option_field lib f ∷ after) no_counts h
            ∙ rw (out_of_range_field lib laws f (latest lib laws before no_counts) v n o))

    -- A text among the fields, behind fields that are read, has no name: the null pointer is used.
    pub read_counts_text :
        (before : List Field) (t : String) (after : List Stanza)
        → children x ≡ map (option_field lib) before ++ set_text lib.blank t ∷ after
        → All InRange before
        → read_counts lib notification ≡ err assertion_failed
    unfolding read_counts read_fields read_field
    read_counts_text before t after e h =
        rw (form, e)
          (read_fields_lem lib laws before (set_text lib.blank t ∷ after) no_counts h
            ∙ rw (name_text t))
