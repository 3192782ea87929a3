-- ===== src/Shared/Json.antt =====
-- nlohmann::json as an interface over its type of values `J`, with the operations that the program
-- calls. Nothing of the library is modelled; `Laws` states the documented behaviour relied on.
use a.Base.{
  ◌≡◌, Bool, true, List, Option, none, some, Bytes, ℤ, bytes_key, ◌==◌, every, nat_eq, not,
  if◌then◌else◌,
}

-- `find` is `contains` with `[]`, `none` for a missing key and for what is no object. `as_text`,
-- `as_int` and `as_items` are the tests `is_string`, `is_number_integer` and `is_array` with the value.
-- `at` is `[]` on a value that may be changed (null for a missing key), and `value_text` and
-- `value_int` are `value(key, default)`; they are `none` where they throw.
-- `dump` throws on text that is not UTF-8, and `parse` on text that is no JSON: `none`.
pub record Json (J : Type 0) : Type 0 where
  pub null : J
  pub is_null : J → Bool
  pub object : J
  pub is_object : J → Bool
  pub set : Bytes → J → J → J
  pub find : J → Bytes → Option J
  pub text : Bytes → J
  pub as_text : J → Option Bytes
  pub int : ℤ → J
  pub as_int : J → Option ℤ
  pub as_items : J → Option (List J)
  pub array : List J → J
  pub at : Bytes → J → Option J
  pub value_text : J → Bytes → Bytes → Option Bytes
  pub value_int : J → Bytes → ℤ → Option ℤ
  pub dump : J → Option Bytes
  pub parse : Bytes → Option J

abbrev pub no_newline : Bytes → Bool
no_newline = every (λ c. not (nat_eq c 10))

-- A compact dump is on one line, and parses to what was dumped.
pub record Laws {J : Type 0} (json : Json J) : Type 0 where
  pub null_only : (j : J) → json.is_null j ≡ true → j ≡ json.null
  pub object_is : json.is_object json.object ≡ true
  pub set_is :
      (k : Bytes) (v j : J) → json.is_object j ≡ true → json.is_object (json.set k v j) ≡ true
  pub find-object : (k : Bytes) → json.find json.object k ≡ none
  pub find-set :
      (k q : Bytes) (v j : J)
      → json.is_object j ≡ true
      → json.find (json.set k v j) q ≡ (if k == q then some v else json.find j q)
  pub as_text-text : (s : Bytes) → json.as_text (json.text s) ≡ some s
  pub as_int-int : (n : ℤ) → json.as_int (json.int n) ≡ some n
  pub parse-dump : (j : J) (s : Bytes) → json.dump j ≡ some s → json.parse s ≡ some j
  pub dump_line : (j : J) (s : Bytes) → json.dump j ≡ some s → no_newline s ≡ true

-- More of the library: `walk` is what a range-based for goes over, `texts` and `as_texts` convert a
-- vector of strings, `empty` is `empty()`, `value_bool` is `value(key, default)` and `pretty` is
-- `dump(2)`; `none` where they throw.
pub record Conversions (J : Type 0) : Type 0 where
  pub bool : Bool → J
  pub value_bool : J → Bytes → Bool → Option Bool
  pub as_bool : J → Option Bool
  pub walk : J → List J
  pub texts : List Bytes → J
  pub as_texts : J → Option (List Bytes)
  pub empty : J → Bool
  pub pretty : J → Option Bytes

-- `value` of an object is the value of the key, or the default; what was converted converts back.
pub record ConversionLaws {J : Type 0} (json : Json J) (conv : Conversions J) : Type 0 where
  pub value_text_object :
      (j : J) (k s : Bytes)
      → json.is_object j ≡ true
      → json.value_text j k s ≡ elim (json.find j k) [ none ↦ some s | some v ↦ json.as_text v ]
  pub value_int_object :
      (j : J) (k : Bytes) (n : ℤ)
      → json.is_object j ≡ true
      → json.value_int j k n ≡ elim (json.find j k) [ none ↦ some n | some v ↦ json.as_int v ]
  pub value_bool_object :
      (j : J) (k : Bytes) (b : Bool)
      → json.is_object j ≡ true
      → conv.value_bool j k b ≡ elim (json.find j k) [ none ↦ some b | some v ↦ conv.as_bool v ]
  pub as_bool-bool : (b : Bool) → conv.as_bool (conv.bool b) ≡ some b
  pub as_texts-texts : (ss : List Bytes) → conv.as_texts (conv.texts ss) ≡ some ss
  pub walk-array : (js : List J) → conv.walk (json.array js) ≡ js
