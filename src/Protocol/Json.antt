-- ===== src/Protocol/Json.antt =====
-- `serde_json::Value` and the accessors of it that src/protocol/parse.rs calls. A number is an
-- unsigned integer of 64 bits, or any other number by its text. The fields of an object stand in
-- the order in which the map hands them out.
use ds4_rs.Base.{ℕ, List, [], ◌∷◌, Option, none, some, Bool, list_eq, if◌then◌else◌, String}
use ds4_rs.Bytes.{Bytes}
use ds4_rs.Gguf.Tensors.{and_then}
use ds4_rs.Text.{utf8, unwrap_or, or_else}

mutual
  pub data Value : Type 0 where
    null : Value
    boolean : Bool → Value
    unsigned : ℕ → Value
    other_number : Bytes → Value
    string : Bytes → Value
    array : Items → Value
    object : Fields → Value

  pub data Items : Type 0 where
    no_items : Items
    item : Value → Items → Items

  pub data Fields : Type 0 where
    no_fields : Fields
    field : Bytes → Value → Fields → Fields

abbrev pub items_list : Items → List Value
items_list no_items = []
items_list (item v rest) = v ∷ items_list rest

abbrev pub keys : Fields → List Bytes
keys no_fields = []
keys (field k v rest) = k ∷ keys rest

abbrev find_field : Bytes → Fields → Option Value
find_field key no_fields = none
find_field key (field k v rest) =
    let later = find_field key rest in if list_eq k key then some v else later

-- `value.get(key)`
unfoldable pub get : Value → String → Option Value
unfolding list_eq
get (object fields) key = find_field (utf8 key) fields
get null key = none
get (boolean b) key = none
get (unsigned n) key = none
get (other_number t) key = none
get (string s) key = none
get (array items) key = none

-- `value.as_str()`
unfoldable pub as_str : Value → Option Bytes
as_str (string s) = some s
as_str _ = none

-- `value.as_array()`
unfoldable pub as_array : Value → Option (List Value)
as_array (array items) = some (items_list items)
as_array _ = none

-- `value.as_object()`, as its keys
unfoldable pub object_keys : Value → Option (List Bytes)
object_keys (object fields) = some (keys fields)
object_keys _ = none

-- `value.as_bool()`
unfoldable pub as_bool : Value → Option Bool
as_bool (boolean b) = some b
as_bool _ = none

-- `value.as_u64()`
unfoldable pub as_u64 : Value → Option ℕ
as_u64 (unsigned n) = some n
as_u64 _ = none

-- `value.get(a).or_else(|| value.get(b))`, for any number of keys
unfoldable pub get_any : Value → List String → Option Value
unfolding get
get_any v [] = none
get_any v (key ∷ keys) = or_else (get v key) (get_any v keys)

-- ... `.and_then(|v| v.as_str())`
unfoldable pub str_at : Value → List String → Option Bytes
unfolding get_any as_str
str_at v keys = and_then (get_any v keys) as_str

-- ... `.unwrap_or(default)`
unfoldable pub str_or : Value → List String → String → Bytes
unfolding str_at
str_or v keys default = unwrap_or (str_at v keys) (utf8 default)

-- `value.get(key).and_then(|v| v.as_array())`, with no elements where there is no array.
unfoldable pub items_at : Value → String → List Value
unfolding get as_array
items_at v key = unwrap_or (and_then (get v key) as_array) []

-- A text equals a literal.
abbrev pub is_text : Bytes → String → Bool
is_text s t = list_eq s (utf8 t)
