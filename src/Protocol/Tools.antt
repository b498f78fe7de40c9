-- ===== src/Protocol/Tools.antt =====
-- src/protocol.mjs: `dynamicTools` and `canonical`, and the way back from a wire name to its tool
-- (src/bridge.mjs).
use codex_official_bridge.Prelude.{
  ℕ, zero, suc, ◌+◌, sym, length, arith, String, ◌≡◌, refl, Bool, true, false, Option, none, some,
  List, [], ◌∷◌, ◌⊕◌, ◌∙◌, ap, get_elem?, if◌then◌else◌,
}
use Prim.Native.Nat.{Ordering}
use Prim.Native.String
use codex_official_bridge.Text.{strip_prefix, parse_digits, decimal}
use codex_official_bridge.Text.Laws.{strip_prefix-append, parse_digits-decimal}
use codex_official_bridge.Json.{
  Value, undefined, null, bool, num, str, arr, obj, Items, nil, cons, Fields, end, field,
}
use codex_official_bridge.Json.Print.{quote, number_text, separated}
use codex_official_bridge.Protocol.Request.{Tool}

pub record DynamicTool : Type 0 where
  pub name : String
  pub description : String
  pub input_schema : Value

abbrev pub wire_prefix : String
wire_prefix = "bridge_fn_"

unfoldable pub dynamic_tools_from : ℕ → List Tool → List DynamicTool
dynamic_tools_from i [] = []
dynamic_tools_from i (tool ∷ tools) =
    record {
      name = wire_prefix ⊕ decimal i;
      description = tool.name ⊕ ": " ⊕ tool.description;
      input_schema = tool.parameters;
    }
    ∷ dynamic_tools_from (suc i) tools

unfoldable pub dynamic_tools : List Tool → List DynamicTool
unfolding dynamic_tools_from
dynamic_tools tools = dynamic_tools_from 0 tools

abbrev pub find_digits : List Tool → Option String → Option Tool
find_digits tools none = none
find_digits tools (some digits) = elim (parse_digits digits) [
  | none ↦ none
  | some i ↦ get_elem? tools i
]

-- `s.tools[Number(/^bridge_fn_(\d+)$/.exec(name)[1])]`.
unfoldable pub find_tool : List Tool → String → Option Tool
find_tool tools name = find_digits tools (strip_prefix wire_prefix name)

option_path : {A : Type 0} {a b : A} → ◌≡◌ {A = Option A} (some a) (some b) → a ≡ b
option_path e = cc

-- Order of keys by code points, as `sort` has it for the keys of the Basic Multilingual Plane.
abbrev before : String → String → Bool
before a b = elim (String.compare a b) [ Ordering.gt ↦ false | _ ↦ true ]

insert_key : String × String → List (String × String) → List (String × String)
insert_key e [] = e ∷ []
insert_key e (f ∷ rest) = if before e.0 f.0 then e ∷ f ∷ rest else f ∷ insert_key e rest

join_fields : Bool → List (String × String) → String
join_fields first [] = ""
join_fields first ((k, v) ∷ rest) = separated first (quote k ⊕ ":" ⊕ v) ⊕ join_fields false rest

-- The keys of an object are sorted before their values are printed.
unfoldable mutual
  unfolding insert_key join_fields

  pub canonical : Value → String
  canonical undefined = "undefined"
  canonical null = "null"
  canonical (bool true) = "true"
  canonical (bool false) = "false"
  canonical (num n) = number_text n
  canonical (str s) = quote s
  canonical (arr vs) = "[" ⊕ canonical_items vs true ⊕ "]"
  canonical (obj fs) = "{" ⊕ join_fields true (sorted_fields fs) ⊕ "}"

  pub canonical_items : Items → Bool → String
  canonical_items nil first = ""
  canonical_items (cons v vs) first = separated first (canonical v) ⊕ canonical_items vs false

  pub sorted_fields : Fields → List (String × String)
  sorted_fields end = []
  sorted_fields (field k v fs) = insert_key (k, canonical v) (sorted_fields fs)

-- A validated tool, as the object that `validateRequest` makes.
unfoldable pub tool_value : Tool → Value
tool_value tool = obj (
    field "type" (str "function") (
      field "name" (str tool.name) (
        field "description" (str tool.description)
          (field "parameters" tool.parameters (field "strict" (bool false) end)))))

abbrev pub tool_items : List Tool → Items
tool_items [] = nil
tool_items (tool ∷ tools) = cons (tool_value tool) (tool_items tools)

-- `canonical(req.tools)`.
unfoldable pub canonical_tools : List Tool → String
canonical_tools tools = canonical (arr (tool_items tools))

pub find_tool-name :
    (tools : List Tool) (i : ℕ) → find_tool tools (wire_prefix ⊕ decimal i) ≡ get_elem? tools i
unfolding find_tool
find_tool-name tools i =
    ap (find_digits tools) (strip_prefix-append wire_prefix (decimal i))
    ∙ rw (parse_digits-decimal i, find_digits) refl

-- The description and the schema that the app-server is given for a tool.
abbrev pub Describes : Tool → DynamicTool → Type 0
Describes tool d =
    (d.description ≡ tool.name ⊕ ": " ⊕ tool.description) × (d.input_schema ≡ tool.parameters)

dynamic_tools_from-lem :
    (first : ℕ) (tools : List Tool) (i : ℕ) (d : DynamicTool)
    → get_elem? (dynamic_tools_from first tools) i ≡ some d
    → (tool : Tool) × (get_elem? tools i ≡ some tool)
      × (d.name ≡ wire_prefix ⊕ decimal (first + i))
      × Describes tool d
unfolding dynamic_tools_from
dynamic_tools_from-lem first [] i d e = cc
dynamic_tools_from-lem first (tool ∷ tools) zero d e =
    let same = option_path e in
    (
      tool,
      refl,
      ap (λ d. d.name) (sym same) ∙ ap (λ k. wire_prefix ⊕ decimal k) (omega arith),
      (ap (λ d. d.description) (sym same), ap (λ d. d.input_schema) (sym same)),
    )
dynamic_tools_from-lem first (tool ∷ tools) (suc i) d e =
    let (t, there, named, described) = dynamic_tools_from-lem (suc first) tools i d e in
    (t, there, named ∙ ap (λ k. wire_prefix ⊕ decimal k) (omega arith), described)

length-dynamic_tools_from :
    (first : ℕ) (tools : List Tool) → length (dynamic_tools_from first tools) ≡ length tools
unfolding dynamic_tools_from
length-dynamic_tools_from first [] = refl
length-dynamic_tools_from first (tool ∷ tools) =
    ap suc (length-dynamic_tools_from (suc first) tools)

-- The app-server is given as many tools as the request has. The name of each finds exactly the
-- tool of the request that it was made of, the one at the same index, and its description and its
-- schema are those of that tool.
pub find_tool-dynamic_tools :
    (tools : List Tool)
    → (length (dynamic_tools tools) ≡ length tools)
      × ((i : ℕ) (d : DynamicTool)
          → get_elem? (dynamic_tools tools) i ≡ some d
          → (tool : Tool) × (find_tool tools d.name ≡ some tool)
            × (get_elem? tools i ≡ some tool)
            × Describes tool d)
unfolding dynamic_tools
find_tool-dynamic_tools tools = (
  length-dynamic_tools_from 0 tools,
  λ i d e.
      let (tool, there, named, described) = dynamic_tools_from-lem 0 tools i d e in
      (
        tool,
        ap (find_tool tools) (named ∙ ap (λ k. wire_prefix ⊕ decimal k) (omega arith))
            ∙ find_tool-name tools i
            ∙ there,
        there,
        described,
      ),
)
