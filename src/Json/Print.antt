-- ===== src/Json/Print.antt =====
-- `JSON.stringify` of a value that `JSON.parse` gave.
use Prim.Native.String.{[], ◌∷◌}
use codex_official_bridge.Prelude.{
  ℕ, ◌/◌, ◌%◌, Char, code, String, Bool, true, false, ◌⊕◌, ltb, nat_eq, if◌then◌else◌,
}
use codex_official_bridge.Text.{decimal}
use codex_official_bridge.Json.{
  Number, nat, infinite, Value, undefined, null, bool, num, str, arr, obj, Items, nil, cons, Fields,
  end, field,
}

abbrev one_char : Char → String
one_char c = c ∷ []

hex_digit : ℕ → String
hex_digit n =
    if nat_eq n 10
    then "a"
    else if nat_eq n 11
    then "b"
    else if nat_eq n 12
    then "c"
    else if nat_eq n 13
    then "d"
    else if nat_eq n 14
    then "e"
    else if nat_eq n 15
    then "f"
    else decimal n

escape : Char → String
unfolding hex_digit
escape c =
    if nat_eq (code c) b'"'
    then "\\\""
    else if nat_eq (code c) b'\\'
    then "\\\\"
    else if nat_eq (code c) 8
    then "\\b"
    else if nat_eq (code c) 9
    then "\\t"
    else if nat_eq (code c) 10
    then "\\n"
    else if nat_eq (code c) 12
    then "\\f"
    else if nat_eq (code c) 13
    then "\\r"
    else if ltb (code c) 32
    then "\\u00" ⊕ hex_digit (code c / 16) ⊕ hex_digit (code c % 16)
    else one_char c

escape_all : String → String
escape_all [] = ""
escape_all (c ∷ s) = escape c ⊕ escape_all s

unfoldable pub quote : String → String
unfolding escape escape_all
quote s = "\"" ⊕ escape_all s ⊕ "\""

unfoldable pub number_text : Number → String
number_text (nat n) = decimal n
number_text (Number.decimal s) = s
number_text (infinite _) = "null"

-- A text behind a comma, unless it is the first.
abbrev pub separated : Bool → String → String
separated true s = s
separated false s = "," ⊕ s

unfoldable mutual
  pub stringify : Value → String
  stringify undefined = "undefined"
  stringify null = "null"
  stringify (bool true) = "true"
  stringify (bool false) = "false"
  stringify (num n) = number_text n
  stringify (str s) = quote s
  stringify (arr vs) = "[" ⊕ stringify_items vs true ⊕ "]"
  stringify (obj fs) = "{" ⊕ stringify_fields fs true ⊕ "}"

  pub stringify_items : Items → Bool → String
  stringify_items nil first = ""
  stringify_items (cons v vs) first = separated first (stringify v) ⊕ stringify_items vs false

  pub stringify_fields : Fields → Bool → String
  stringify_fields end first = ""
  stringify_fields (field k v fs) first =
      separated first (quote k ⊕ ":" ⊕ stringify v) ⊕ stringify_fields fs false
