-- ===== src/AppServer/Json.antt =====
-- The values of `any` that encoding/json decodes, and the accessors of internal/appserver/normalize.go
-- and client.go on them. A Go map is a list of its entries.
use codex_feishu.Prelude.{
  ℕ, Bool, false, ◌||◌, Option, none, some, List, [], ◌∷◌, ◌++◌, map, if◌then◌else◌, any, concat,
}
use codex_feishu.Prelude.Text.{Text, codes, text_eq, trim_space, is_empty}

-- The int64 of Go.
pub data ℤ : Type 0 where
  pos negsuc : ℕ → ℤ

-- A float64, by what the code reads of it: `int64(x)`, `x > 0`, `x != 0` and `fmt.Sprint(x)`.
pub record Number : Type 0 where
  pub truncated : ℤ
  pub is_positive : Bool
  pub is_nonzero : Bool
  pub printed : Text

mutual
  pub data Json : Type 0 where
    null : Json
    boolean : Bool → Json
    number : Number → Json
    string : Text → Json
    array : Elements → Json
    object : Fields → Json

  pub data Elements : Type 0 where
    nil : Elements
    cons : Json → Elements → Elements

  pub data Fields : Type 0 where
    end : Fields
    field : Text → Json → Fields → Fields

-- The standard library, as far as its results matter to the code only as values: the hexadecimal
-- SHA-1, `json.Marshal`, and `fmt.Sprint` of an array or an object.
pub record Encoding : Type 0 where
  pub sha1_hex : Text → Text
  pub marshal : Json → Text
  pub sprint : Json → Text

-- `value, ok := payload[key]`
unfoldable pub find : Text → Fields → Option Json
find k end = none
find k (field j v rest) = if text_eq j k then some v else find k rest

-- `payload[key]`
unfoldable pub value_at : Fields → Text → Json
unfolding find
value_at payload k = elim (find k payload) [ none ↦ null | some v ↦ v ]

unfoldable pub elements : Elements → List Json
elements nil = []
elements (cons v vs) = v ∷ elements vs

unfoldable pub from_list : List Json → Elements
from_list [] = nil
from_list (v ∷ vs) = cons v (from_list vs)

-- `items, _ := value.([]any)`
unfoldable pub array_of : Json → Option (List Json)
unfolding elements
array_of (array vs) = some (elements vs)
array_of v = none

abbrev pub or_nil : Option (List Json) → List Json
or_nil none = []
or_nil (some vs) = vs

-- `typed, ok := value.(map[string]any)`
unfoldable pub object_of : Json → Option Fields
object_of (object fs) = some fs
object_of v = none

-- `asMap`, and what `item, _ := value.(map[string]any)` reads of each key.
unfoldable pub as_map : Json → Fields
as_map (object fs) = fs
as_map v = end

-- `stringValue`
unfoldable pub string_value : Json → Text → Text
unfolding trim_space text_eq
string_value (string t) fallback = if text_eq (trim_space t) (codes "<nil>") then fallback else t
string_value v fallback = fallback

-- `stringValue(payload[key], "")`
abbrev pub string_at : Fields → Text → Text
string_at payload k = string_value (value_at payload k) []

-- `int64Value`
unfoldable pub int64_value : Json → ℤ
int64_value (number x) = x.truncated
int64_value v = pos 0

-- `boolValue`; `strconv.ParseBool` gives false for what it refuses.
unfoldable pub bool_value : Json → Bool
unfolding text_eq
bool_value (boolean b) = b
bool_value (string t) =
    any (text_eq t)
      (codes "1" ∷ codes "t" ∷ codes "T" ∷ codes "TRUE" ∷ codes "true" ∷ codes "True" ∷ [])
bool_value v = false

-- `firstString`
unfoldable pub first_string : List Text → Text
unfolding trim_space
first_string [] = []
first_string (t ∷ ts) = if is_empty (trim_space t) then first_string ts else trim_space t

module _ (lib : Encoding) where
  -- `fmt.Sprintf("%v", value)`
  unfoldable pub printed_value : Json → Text
  printed_value null = codes "<nil>"
  printed_value (boolean b) = if b then codes "true" else codes "false"
  printed_value (number x) = x.printed
  printed_value (string t) = t
  printed_value v = lib.sprint v

  -- `rpcString`
  unfoldable pub rpc_string : Json → Text
  unfolding printed_value trim_space text_eq
  rpc_string null = []
  rpc_string v =
      let out = trim_space (printed_value v) in
      if is_empty out || text_eq out (codes "<nil>") then [] else out

  -- `fingerprint`
  unfoldable pub fingerprint : List Text → Text
  fingerprint parts = lib.sha1_hex (concat (map (λ part. part ++ 0 ∷ []) parts))

  -- The loop of `stringSliceValue`.
  unfoldable pub strings_of : List Json → List Text
  unfolding rpc_string
  strings_of [] = []
  strings_of (v ∷ vs) =
      let out = rpc_string v in if is_empty out then strings_of vs else out ∷ strings_of vs

  -- `stringSliceValue`
  unfoldable pub string_slice_value : Json → List Text
  unfolding array_of strings_of
  string_slice_value v = strings_of (or_nil (array_of v))
