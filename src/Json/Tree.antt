-- ===== src/Json/Tree.antt =====
-- A concrete JSON library that has the documented behaviour: values as trees. Its text layer knows
-- one document, `"{}"`, and serves the tests alone.
use Prim.Native.Nat.{◌%◌, ◌^◌}
use uwpx_push_server.Common.{
  ap, arith, ℕ, ◌-◌, pos, negsuc, ◌≡◌, refl, Bool, true, false, String, Option, none, some, List,
  [], ◌∷◌, ℤ, ◌==◌, if◌then◌else◌, is_some, eq_iff,
}
use uwpx_push_server.Json.{JsonLib, JsonLaws, EmplaceLaws}

mutual
  pub data Items : Type 0 where
    nil : Items
    cons : Value → Items → Items

  pub data Fields : Type 0 where
    end : Fields
    field : String → Value → Fields → Fields

  pub data Value : Type 0 where
    flag : Bool → Value
    number : ℤ → Value
    obj : Fields → Value
    text : String → Value
    arr : Items → Value
    nothing : Value

find : String → Fields → Option Value
find k end = none
find k (field j v fs) = if j == k then some v else find k fs

member : Value → String → Option Value
unfolding find
member (obj fs) k = find k fs
member _ k = none

to_string : Value → Option String
to_string (text s) = some s
to_string _ = none

to_int : Value → Option ℤ
to_int (number n) = some n
to_int _ = none

-- A number outside of the range of size_t is taken modulo 2 ^ 64.
to_size : Value → Option ℕ
to_size (number (pos n)) = some (n % 2 ^ 64)
to_size (number (negsuc n)) = some (2 ^ 64 - 1 - n % 2 ^ 64)
to_size _ = none

-- A number outside of the range of uint16_t is taken modulo 2 ^ 16.
to_uint16 : Value → Option ℕ
to_uint16 (number (pos n)) = some (n % 2 ^ 16)
to_uint16 (number (negsuc n)) = some (2 ^ 16 - 1 - n % 2 ^ 16)
to_uint16 _ = none

to_bool : Value → Option Bool
to_bool (flag b) = some b
to_bool _ = none

is_flag : Value → Bool
is_flag (flag b) = true
is_flag _ = false

listed : Items → List Value
listed nil = []
listed (cons v vs) = v ∷ listed vs

items : List Value → Items
items [] = nil
items (v ∷ vs) = cons v (items vs)

values : Fields → List Value
values end = []
values (field _ v fs) = v ∷ values fs

-- A range-for over a value that is no container visits the value itself, over null nothing.
visited : Value → List Value
unfolding listed values
visited (arr vs) = listed vs
visited (obj fs) = values fs
visited nothing = []
visited v = v ∷ []

listed-items : (vs : List Value) → listed (items vs) ≡ vs
unfolding listed items
listed-items [] = refl
listed-items (v ∷ vs) = ground (arith, listed-items vs)

is_nothing : Value → Bool
is_nothing nothing = true
is_nothing _ = false

with_field : String → Value → Fields → Fields
with_field k v fs = if is_some (find k fs) then fs else field k v fs

emplaced : Value → String → Value → Option Value
unfolding with_field
emplaced (obj fs) k v = some (obj (with_field k v fs))
emplaced nothing k v = some (obj (field k v end))
emplaced _ k v = none

-- with a parser
unfoldable pub tree_with : (String → Option Value) → JsonLib
unfolding member to_string to_int to_bool to_size to_uint16 is_flag visited items is_nothing
    emplaced
tree_with parse = record {
  Json = Value;
  Object = Fields;
  contains = λ v k. is_some (member v k);
  at = λ v k. member v k;
  get_string = to_string;
  get_int = to_int;
  get_bool = to_bool;
  get_size = to_size;
  get_uint16 = to_uint16;
  of_nat = λ n. number (pos n);
  is_boolean = is_flag;
  elements = visited;
  empty = end;
  put = λ fs k v. field k v fs;
  json = obj;
  of_string = text;
  of_int = number;
  of_bool = flag;
  array = λ vs. arr (items vs);
  null = nothing;
  is_null = is_nothing;
  emplace = emplaced;
  parse = parse;
  dump = λ v. "{}";
}

unfoldable pub tree : JsonLib
unfolding tree_with
tree = tree_with (λ s. if s == "{}" then some (obj end) else none)

pub tree_with_laws : (parse : String → Option Value) → JsonLaws (tree_with parse)
unfolding tree_with
tree_with_laws parse = record {
  contains_empty = λ k. refl;
  contains_put = λ o k j v. ground arith;
  at_put = λ o k j v. ground arith;
  get_of_string = λ s. refl;
  get_of_int = λ n. refl;
  get_of_nat = λ n h. ap some (omega arith);
  get_of_bool = λ b. refl;
  is_boolean_of_bool = λ b. refl;
  elements_array = λ vs. listed-items vs;
}

pub tree_laws : JsonLaws tree
unfolding tree
tree_laws = tree_with_laws _

at_emplaced :
    (j j' : Value) (k i : String) (v : Value)
    → emplaced j k v ≡ some j'
    → member j' i
      ≡ (if k == i then (if is_some (member j k) then member j k else some v) else member j i)
unfolding emplaced with_field member find
at_emplaced (obj fs) j' k i v h = ground (arith, eq_iff k i)
at_emplaced nothing j' k i v h = ground (arith, eq_iff k i)
at_emplaced (flag b) j' k i v h = absurd (ground arith)
at_emplaced (number n) j' k i v h = absurd (ground arith)
at_emplaced (text s) j' k i v h = absurd (ground arith)
at_emplaced (arr vs) j' k i v h = absurd (ground arith)

pub tree_emplace_laws : (parse : String → Option Value) → EmplaceLaws (tree_with parse)
unfolding tree_with
tree_emplace_laws parse = record {
  contains_at = λ j k. refl;
  emplace_object = λ o k v. refl;
  at_emplace = at_emplaced;
  null_is_null = refl;
}
