-- ===== src/Rdap/Json.antt =====
-- src/rdap.rs: the JSON values that it reads, `serde_json::Value`. The parser of JSON is a
-- parameter of the code that calls it.
use rust_whois.Prelude.{ℕ, zero, suc, Bool, List, [], ◌∷◌, Option, none, some, if◌then◌else◌}
use rust_whois.Text.{Str, str_eq}

-- The code reads no number: each is its text.
mutual
  pub data Value : Type 0 where
    null : Value
    bool : Bool → Value
    number : Str → Value
    string : Str → Value
    array : Items → Value
    object : Fields → Value

  pub data Items : Type 0 where
    nil : Items
    cons : Value → Items → Items

  -- The keys of an object differ.
  pub data Fields : Type 0 where
    end : Fields
    field : Str → Value → Fields → Fields

abbrev pub to_list : Items → List Value
to_list nil = []
to_list (cons v vs) = v ∷ to_list vs

-- `as_array`
abbrev pub as_array : Value → Option (List Value)
as_array (array vs) = some (to_list vs)
as_array _ = none

-- `as_str`
abbrev pub as_str : Value → Option Str
as_str (string s) = some s
as_str _ = none

abbrev field_of : Str → Fields → Option Value
field_of key end = none
field_of key (field k v fs) = if str_eq k key then some v else field_of key fs

-- `get` with a key: `none`, too, for a value that is no object
unfoldable pub get : Str → Value → Option Value
unfolding str_eq
get key (object fs) = field_of key fs
get key _ = none

-- `get` with an index, of a slice
abbrev pub nth {ℓ} : {A : Type ℓ} → List A → ℕ → Option A
nth [] i = none
nth (x ∷ xs) zero = some x
nth (x ∷ xs) (suc i) = nth xs i

-- `and_then`
abbrev pub and_then {ℓ κ} : {A : Type ℓ} {B : Type κ} → Option A → (A → Option B) → Option B
and_then none f = none
and_then (some a) f = f a

-- `json.get(key).and_then(|v| v.as_str())`
unfoldable pub get_str : Str → Value → Option Str
unfolding get
get_str key v = and_then (get key v) as_str

-- `json.get(key).and_then(|v| v.as_array())`
unfoldable pub get_array : Str → Value → Option (List Value)
unfolding get
get_array key v = and_then (get key v) as_array

-- `filter_map(|v| v.as_str())`
abbrev pub strings : List Value → List Str
strings [] = []
strings (string s ∷ vs) = s ∷ strings vs
strings (_ ∷ vs) = strings vs
