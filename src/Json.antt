-- ===== src/Json.antt =====
-- The values that `JSON.parse` gives, as the JavaScript code reads them, with `undefined` for what
-- an absent property reads as.
pub mod Print
pub mod Keys
use codex_official_bridge.Prelude.{
  ℕ, String, Bool, true, false, not, List, [], ◌∷◌, ◌==◌, nat_eq, if◌then◌else◌,
}

-- A number is a natural, another finite number by its decimal text, or an infinity, which
-- `JSON.parse` gives for a literal that is too large.
pub data Number : Type 0 where
  nat : ℕ → Number
  decimal : String → Number
  infinite : Bool → Number

mutual
  pub data Value : Type 0 where
    undefined null : Value
    bool : Bool → Value
    num : Number → Value
    str : String → Value
    obj : Fields → Value
    arr : Items → Value

  pub data Fields : Type 0 where
    end : Fields
    field : String → Value → Fields → Fields

  pub data Items : Type 0 where
    nil : Items
    cons : Value → Items → Items

abbrev pub items : Items → List Value
items nil = []
items (cons v vs) = v ∷ items vs

abbrev pub is_number_eq : Number → Number → Bool
is_number_eq (nat a) (nat b) = nat_eq a b
is_number_eq (decimal a) (decimal b) = a == b
is_number_eq (infinite true) (infinite b) = b
is_number_eq (infinite false) (infinite true) = false
is_number_eq (infinite false) (infinite false) = true
is_number_eq _ _ = false

-- `Object.keys(value)`.
unfoldable pub field_names : Fields → List String
field_names end = []
field_names (field k v fs) = k ∷ field_names fs

-- `value[key]` at an object that `JSON.parse` gave, whose keys differ.
unfoldable pub find_field : Fields → String → Value
find_field end key = undefined
find_field (field k v fs) key = if k == key then v else find_field fs key

-- `Object.prototype.hasOwnProperty.call(value, key)`.
unfoldable pub has_field : Fields → String → Bool
has_field end key = false
has_field (field k v fs) key = if k == key then true else has_field fs key

-- `value?.key` for the property names that the program reads, none of which a text, a number or a
-- list has.
unfoldable pub get : Value → String → Value
unfolding find_field
get (obj fs) key = find_field fs key
get _ key = undefined

-- A value where JavaScript wants a condition.
unfoldable pub is_truthy : Value → Bool
is_truthy undefined = false
is_truthy null = false
is_truthy (bool b) = b
is_truthy (num (nat n)) = if nat_eq n 0 then false else true
is_truthy (num _) = true
is_truthy (str s) = if s == "" then false else true
is_truthy (arr _) = true
is_truthy (obj _) = true

-- `typeof v === 'string'`, `typeof v === 'boolean'`, `v === undefined`, `v === 'text'`.
abbrev pub is_string : Value → Bool
is_string (str s) = true
is_string _ = false

abbrev pub is_boolean : Value → Bool
is_boolean (bool b) = true
is_boolean _ = false

abbrev pub is_undefined : Value → Bool
is_undefined undefined = true
is_undefined _ = false

abbrev pub is_text : String → Value → Bool
is_text s (str t) = t == s
is_text s _ = false

-- `v && typeof v === 'object' && !Array.isArray(v)`.
abbrev pub is_object : Value → Bool
is_object (obj fs) = true
is_object _ = false

-- `Object.keys(v)` at an object.
unfoldable pub keys_of : Value → List String
unfolding field_names
keys_of (obj fs) = field_names fs
keys_of _ = []

-- `a === b`, and the equality of the keys of a `Map`. Two objects or lists are the same only by
-- identity, and the program never compares one with itself.
abbrev pub strict_eq : Value → Value → Bool
strict_eq undefined undefined = true
strict_eq null null = true
strict_eq (bool true) (bool b) = b
strict_eq (bool false) (bool b) = not b
strict_eq (num a) (num b) = is_number_eq a b
strict_eq (str a) (str b) = a == b
strict_eq _ _ = false

-- `a ?? b`.
abbrev pub coalesce : Value → Value → Value
coalesce undefined b = b
coalesce null b = b
coalesce a b = a
