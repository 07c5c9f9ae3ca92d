-- ===== src/Json.antt =====
-- nlohmann::json, which is not part of the repository: the calls that the code makes of it, as the
-- fields of a record, and the documented behaviour that the proofs rely on.
pub mod Tree
use Prim.Native.Nat.{◌<◌, ◌^◌}
use uwpx_push_server.Common.{
  ℕ, ◌≡◌, Bool, true, false, String, Option, some, List, ℤ, ◌==◌, if◌then◌else◌, is_some,
}

-- `none` is an exception: out_of_range of at, type_error of the conversions. `Object` is a value
-- that has only been default constructed and assigned to by `j[key] = v`.
pub record JsonLib : Type 1 where
  pub Json : Type 0
  pub Object : Type 0
  pub contains : Json → String → Bool
  -- at(key), and operator[](key) after contains(key)
  pub at : Json → String → Option Json
  pub get_string : Json → Option String
  pub get_int : Json → Option ℤ
  pub get_bool : Json → Option Bool
  -- the conversion to size_t
  pub get_size : Json → Option ℕ
  -- the conversion to uint16_t
  pub get_uint16 : Json → Option ℕ
  pub is_boolean : Json → Bool
  -- what a range-for visits
  pub elements : Json → List Json
  pub empty : Object
  pub put : Object → String → Json → Object
  pub json : Object → Json
  pub of_string : String → Json
  pub of_int : ℤ → Json
  pub of_bool : Bool → Json
  -- from an unsigned integer
  pub of_nat : ℕ → Json
  pub array : List Json → Json
  pub null : Json
  pub is_null : Json → Bool
  -- `none` is the exception type_error of a value that is neither an object nor null
  pub emplace : Json → String → Json → Option Json
  -- `none` is the exception parse_error
  pub parse : String → Option Json
  pub dump : Json → String

module _ (lib : JsonLib) where
  open lib use {
    contains, at, get_string, get_int, get_bool, get_uint16, of_nat, is_boolean, elements, empty,
    put, json, of_string, of_int, of_bool, array,
  }

  -- What is written into an object or an array is what is read from it.
  pub record JsonLaws : Type 0 where
    pub contains_empty : (k : String) → contains (json empty) k ≡ false
    pub contains_put :
        (o : lib.Object) (k j : String) (v : lib.Json)
        → contains (json (put o k v)) j ≡ (if k == j then true else contains (json o) j)
    pub at_put :
        (o : lib.Object) (k j : String) (v : lib.Json)
        → at (json (put o k v)) j ≡ (if k == j then some v else at (json o) j)
    pub get_of_string : (s : String) → get_string (of_string s) ≡ some s
    pub get_of_int : (n : ℤ) → get_int (of_int n) ≡ some n
    pub get_of_nat : (n : ℕ) → n < 2 ^ 16 → get_uint16 (of_nat n) ≡ some n
    pub get_of_bool : (b : Bool) → get_bool (of_bool b) ≡ some b
    pub is_boolean_of_bool : (b : Bool) → is_boolean (of_bool b) ≡ true
    pub elements_array : (vs : List lib.Json) → elements (array vs) ≡ vs

  -- What emplace does, which leaves a key as it is that is there.
  pub record EmplaceLaws : Type 0 where
    pub contains_at : (j : lib.Json) (k : String) → contains j k ≡ is_some (at j k)
    pub emplace_object :
        (o : lib.Object) (k : String) (v : lib.Json) → is_some (lib.emplace (json o) k v) ≡ true
    pub at_emplace :
        (j j' : lib.Json) (k i : String) (v : lib.Json)
        → lib.emplace j k v ≡ some j'
        → at j' i ≡ (if k == i then (if contains j k then at j k else some v) else at j i)
    pub null_is_null : lib.is_null lib.null ≡ true
