-- ===== src/Configuration/Serializer.antt =====
-- storage/Serializer.hpp: the members that read and write single keys of the JSON value, and the
-- forms of an optional value and of a date. A type is given by its conversions from and to JSON,
-- where `none` is an exception.
use uwpx_push_server.Common.{
  ◌≡◌, refl, Bool, true, false, String, Option, none, some, is_some, Result, ok, err, and_then,
  or_throw, type_error, out_of_range, if◌then◌else◌, arith, ◌==◌,
}
use uwpx_push_server.Common.Action.{Action, done, change}
use uwpx_push_server.Json.{JsonLib, JsonLaws, EmplaceLaws}

module _ (lib : JsonLib) where
  open lib use {contains, at, emplace, is_null, null}

  pub record Serializer : Type 0 where
    pub filename : String
    pub js_int : lib.Json

  abbrev pub create : String → Serializer
  create filename = record { filename = filename; js_int = lib.json lib.empty }

  abbrev pub exists : String → Serializer → Bool
  exists s r = contains r.js_int s

  abbrev with_js_int : Serializer → Option lib.Json → Result Serializer
  with_js_int r none = err type_error
  with_js_int r (some j) = ok (record r { js_int = j })

  module _ {A : Type 0} where
    -- js_int.find(s)->get_to(t), where the key is there
    abbrev found : (lib.Json → Option A) → String → Serializer → Result A
    found get s r =
        and_then (or_throw out_of_range (at r.js_int s)) λ v. or_throw type_error (get v)

    unfoldable pub get_data : (lib.Json → Option A) → String → Serializer → Result (Option A)
    get_data get s r = if exists s r then and_then (found get s r) (λ t. ok (some t)) else ok none

    -- what is returned, and what `t` is then
    unfoldable pub get_to : (lib.Json → Option A) → String → A → Serializer → Result (Bool × A)
    get_to get s t r =
        if exists s r then and_then (found get s r) (λ u. ok (true, u)) else ok (false, t)

    unfoldable pub set_data : (A → lib.Json) → String → A → Action Serializer (Unit {0})
    set_data of key value = change λ r. with_js_int r (emplace r.js_int key (of value))

    -- adl_serializer<std::optional<T>>, and that of std::shared_ptr<T> by the value it points to
    unfoldable pub optional_to_json : (A → lib.Json) → Option A → lib.Json
    optional_to_json of none = null
    optional_to_json of (some a) = of a

    abbrev wrapped : Option A → Option (Option A)
    wrapped none = none
    wrapped (some a) = some (some a)

    unfoldable pub optional_from_json : (lib.Json → Option A) → lib.Json → Option (Option A)
    optional_from_json get j = if is_null j then some none else wrapped (get j)

    abbrev or_else : A → Option A → A
    or_else t none = t
    or_else t (some a) = a

    -- get_to answers as get_data does, and leaves what it is given as it is where get_data finds
    -- nothing.
    pub get_to-get_data :
        (get : lib.Json → Option A) (s : String) (t : A) (r : Serializer)
        → get_to get s t r ≡ and_then (get_data get s r) (λ o. ok (is_some o, or_else t o))
    unfolding get_to get_data
    get_to-get_data get s t r = ground arith

    module _ (laws : JsonLaws lib) (emplaces : EmplaceLaws lib) (of : A → lib.Json)
        (get : lib.Json → Option A) (back : (a : A) → get (of a) ≡ some a) where
      open emplaces use {contains_at, at_emplace, null_is_null}

      -- Each value of the type is read back, if none is written as null.
      pub optional_from_json-optional_to_json :
          ((a : A) → is_null (of a) ≡ false)
          → (o : Option A) → optional_from_json get (optional_to_json of o) ≡ some o
      unfolding optional_from_json optional_to_json
      optional_from_json-optional_to_json h none = rw null_is_null refl
      optional_from_json-optional_to_json h (some a) = rw (h a, back a) refl

      -- the entry of a key, by the value at it
      abbrev read : Option lib.Json → Result (Option A)
      read none = ok none
      read (some v) = and_then (or_throw type_error (get v)) (λ t. ok (some t))

      get_data-read : (s : String) (r : Serializer) → get_data get s r ≡ read (at r.js_int s)
      unfolding get_data
      get_data-read s r = rw (contains_at r.js_int s) (ground arith)

      read_if :
          (same there : Bool) (a : A) (here elsewhere : Option lib.Json)
          → read (if same then (if there then here else some (of a)) else elsewhere)
            ≡ (if same then (if there then read here else ok (some a)) else read elsewhere)
      read_if true true a here elsewhere = refl
      read_if true false a here elsewhere = rw (back a) refl
      read_if false there a here elsewhere = refl

      emplaced_from :
          (r r' : Serializer) (o : Option lib.Json)
          → change (λ q. with_js_int q o) r ≡ done (tt, r')
          → o ≡ some r'.js_int
      emplaced_from r r' none h = absurd (ground arith)
      emplaced_from r r' (some j) h = ground arith

      -- What set_data has given a key is read back by get_data, if there was nothing at the key; if
      -- there was something, it stays, and what is given is dropped. All else is as it was. The
      -- conversion from JSON undoes the one to it.
      pub get_data-set_data :
          (key s : String) (a : A) (r r' : Serializer)
          → set_data of key a r ≡ done (tt, r')
          → get_data get s r' ≡ (
              if key == s
              then (if exists key r then get_data get key r else ok (some a))
              else get_data get s r)
      unfolding set_data
      get_data-set_data key s a r r' h =
          let e : emplace r.js_int key (of a) ≡ some r'.js_int =
            emplaced_from r r' (emplace r.js_int key (of a)) h in
          rw
            (
              get_data-read s r',
              get_data-read key r,
              get_data-read s r,
              at_emplace r.js_int r'.js_int key s (of a) e,
            )
            (read_if (key == s) (exists key r) a (at r.js_int key) (at r.js_int s))
