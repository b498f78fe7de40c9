-- ===== src/Protocol/Valid.antt =====
-- src/protocol.mjs: what `validateRequest` guarantees about the request that it returns.
use codex_official_bridge.Prelude.{
  ℕ, suc, ◌≤◌, String, ◌≡◌, refl, subst, Bool, true, false, Option, none, some, List, [], ◌∷◌,
  arith, length, ltb, ◌≢◌, ◌||◌, if_cases, if_both, ◌==◌, eq_refl, ap, includes,
}
use codex_official_bridge.Json.{Value, undefined, str, arr, items, cons, nil, is_text, get}
use codex_official_bridge.Text.{is_blank, utf16_length}
use codex_official_bridge.Protocol.Error.{Thrown, Result, ok, throw, ◌>>=◌, throw_if, BridgeError}
use codex_official_bridge.Protocol.Request.{
  Tool, is_tool_name, tool_name_of, validate_tool, validate_tools_from, tools_of, check_model,
  ToolOutput, Request, Input, input_of, require_input, validate_request, item_of, message_of,
  content_of, part_of, tool_output_of, make_output,
}

-- What holds of a result, if there is one.
pub record Gives {A : Type 0} (P : A → Type 0) (m : Result A) : Type 0 where
  pub at : (a : A) → m ≡ ok a → P a

ok-injective : {A : Type 0} {a b : A} → ok a ≡ ok b → a ≡ b
ok-injective e = cc

pub Gives-ok : {A : Type 0} (Q : A → Type 0) (a : A) → Q a → Gives Q (ok a)
Gives-ok Q a h = record { at = λ b e. subst Q (ok-injective e) h }

pub Gives-throw : {A : Type 0} (Q : A → Type 0) (t : Thrown) → Gives Q (throw t)
Gives-throw Q t = record { at = λ b e. cc }

module _ {A B : Type 0} where
  -- The result of a sequence comes from a result of its first part.
  pub bind-inverse :
      (m : Result A) (f : A → Result B) (b : B)
      → m >>= f ≡ ok b
      → (a : A) × (m ≡ ok a) × (f a ≡ ok b)
  unfolding ◌>>=◌
  bind-inverse (ok a) f b e = (a, refl, e)
  bind-inverse (throw t) f b e = cc

  pub Gives-bind :
      (P : A → Type 0) (Q : B → Type 0) (m : Result A) (f : A → Result B)
      → Gives P m
      → ((a : A) → P a → Gives Q (f a))
      → Gives Q (m >>= f)
  Gives-bind P Q m f h k = record {
    at = λ b e. let (a, g, r) = bind-inverse m f b e in (k a (h.at a g)).at b r;
  }

  pub Gives-then :
      (Q : B → Type 0) (m : Result A) (f : A → Result B)
      → ((a : A) → Gives Q (f a))
      → Gives Q (m >>= f)
  Gives-then Q m f k = record { at = λ b e. let (a, g, r) = bind-inverse m f b e in (k a).at b r }

abbrev IsFresh : List String → String → Type 0
IsFresh names s = (is_tool_name s ≡ true) × (includes names s ≡ false)

tool_name_of-IsFresh :
    (v : Value) (names : List String) (p : String) → Gives (IsFresh names) (tool_name_of v names p)
unfolding tool_name_of
tool_name_of-IsFresh (str s) names p = record { at = λ a e. ground arith }
tool_name_of-IsFresh _ names p = record { at = λ a e. cc }

validate_tool-IsFresh :
    (i : ℕ) (names : List String) (v : Value)
    → Gives (λ t. IsFresh names t.name) (validate_tool i names v)
unfolding validate_tool
validate_tool-IsFresh i names v = Gives-then _ _ _ λ a. Gives-then _ _ _ λ b. Gives-then _ _ _ λ c.
    Gives-bind (IsFresh names) _ _ _ (tool_name_of-IsFresh _ names _) λ name fresh.
      Gives-then _ _ _
        λ d. Gives-then _ _ _ λ e. Gives-then _ _ _ λ g. Gives-then _ _ _ λ h. Gives-ok _ _ fresh

abbrev AllFresh : List String → List Tool → Type 0
AllFresh names [] = Unit
AllFresh names (t ∷ ts) = IsFresh names t.name × AllFresh (t.name ∷ names) ts

validate_tools_from-AllFresh :
    (i : ℕ) (names : List String) (vs : List Value)
    → Gives (λ ts. AllFresh names ts × (length ts ≡ length vs)) (validate_tools_from i names vs)
unfolding validate_tools_from
validate_tools_from-AllFresh i names [] = Gives-ok _ _ (tt, refl)
validate_tools_from-AllFresh i names (v ∷ vs) =
    Gives-bind (λ t. IsFresh names t.name) _ _ _ (validate_tool-IsFresh i names v)
      λ t fresh.
        Gives-bind (λ ts. AllFresh (t.name ∷ names) ts × (length ts ≡ length vs)) _ _ _
          (validate_tools_from-AllFresh (suc i) (t.name ∷ names) vs)
          λ ts rest. Gives-ok _ _ ((fresh, rest.0), ap suc rest.1)

-- Tools with well-formed names, no name twice, and at most 32 of them.
abbrev pub AreTools : Option (List Tool) → Type 0
AreTools none = Unit
AreTools (some ts) = AllFresh [] ts × (length ts ≤ 32)

throw_if-Gives : (b : Bool) (e : BridgeError) → Gives (λ u. b ≡ false) (throw_if b e)
throw_if-Gives true e = Gives-throw _ _
throw_if-Gives false e = Gives-ok _ _ refl

tools_of-AreTools : (v : Value) → Gives AreTools (tools_of v)
unfolding tools_of
tools_of-AreTools undefined = Gives-ok _ _ tt
tools_of-AreTools (arr vs) =
    Gives-bind (λ u. ltb 32 (length (items vs)) ≡ false) _ _ _ (throw_if-Gives _ _)
      λ u few.
        Gives-bind (λ ts. AllFresh [] ts × (length ts ≡ length (items vs))) _ _ _
          (validate_tools_from-AllFresh 0 [] (items vs))
          λ ts h. Gives-ok AreTools (some ts) (h.0, ground (arith, h.1))
tools_of-AreTools _ = Gives-throw _ _

abbrev IsModel : Option String → Option String → Type 0
IsModel previous none = previous ≢ none
IsModel previous (some m) = (is_blank m ≡ false) × (utf16_length m ≤ 128)

check_model-IsModel :
    (v : Value) (previous : Option String) → Gives (IsModel previous) (check_model v previous)
unfolding check_model
check_model-IsModel undefined none = Gives-throw _ _
check_model-IsModel undefined (some id) = Gives-ok _ _ (λ e. cc)
check_model-IsModel (str s) previous =
    if_cases (Gives (IsModel previous)) (is_blank s || ltb 128 (utf16_length s)) _ _
      (λ bad. Gives-throw _ _)
      (λ good. Gives-ok (IsModel previous) (some s) (ground arith, ground arith))
check_model-IsModel _ previous = Gives-throw _ _

abbrev HasOutput : Option String → Option String → Option ToolOutput → Type 0
HasOutput previous text none = Unit
HasOutput previous text (some out) = (text ≡ none) × (previous ≢ none) × (out.call_id ≢ "")

abbrev Shape : Option String → Input → Type 0
Shape previous i = HasOutput previous i.text i.tool_output

make_output-Shape :
    (previous : Option String) (c o : Value) → Gives (Shape previous) (make_output previous c o)
unfolding make_output
make_output-Shape (some id) (str c) (str o) =
    if_cases (Gives (Shape (some id))) (c == "") _ _ (λ bad. Gives-throw _ _)
      (λ good. Gives-ok _ _ (refl, λ e. cc, λ e. cc (rw (e, eq_refl "") at good)))
make_output-Shape _ _ _ = Gives-throw _ _

tool_output_of-Shape :
    (item : Value) (previous : Option String)
    → Gives (Shape previous) (tool_output_of item previous)
unfolding tool_output_of
tool_output_of-Shape item previous = Gives-then _ _ _ λ u. make_output-Shape previous _ _

part_of-Shape : (part : Value) (previous : Option String) → Gives (Shape previous) (part_of part)
unfolding part_of
part_of-Shape part previous =
    Gives-then _ _ _ λ a. Gives-then _ _ _ λ b. Gives-then _ _ _ λ c. Gives-ok _ _ tt

content_of-Shape :
    (content : Value) (previous : Option String) → Gives (Shape previous) (content_of content)
unfolding content_of
content_of-Shape (str s) previous = Gives-ok _ _ tt
content_of-Shape (arr (cons part nil)) previous = part_of-Shape part previous
content_of-Shape _ previous = Gives-ok _ _ tt

message_of-Shape :
    (item : Value) (previous : Option String) → Gives (Shape previous) (message_of item)
unfolding message_of
message_of-Shape item previous =
    Gives-then _ _ _ λ a. Gives-then _ _ _ λ b. content_of-Shape (get item "content") previous

input_of-Shape :
    (v : Value) (previous : Option String) → Gives (Shape previous) (input_of v previous)
unfolding input_of item_of
input_of-Shape (str s) previous = Gives-ok _ _ tt
input_of-Shape (arr (cons item nil)) previous = Gives-then _ _ _ λ u.
    if_both (Gives (Shape previous)) (is_text "function_call_output" (get item "type")) _ _
      (tool_output_of-Shape item previous) (message_of-Shape item previous)
input_of-Shape _ previous = Gives-ok _ _ tt

-- A tool output that continues a response and no text, or a text that is not blank and no output.
abbrev pub IsInput : Option String → Option String → Option ToolOutput → Type 0
IsInput previous text none = (t : String) × (text ≡ some t) × (is_blank t ≡ false)
IsInput previous text (some out) = (text ≡ none) × (previous ≢ none) × (out.call_id ≢ "")

require_input-IsInput :
    (previous text : Option String) (out : Option ToolOutput)
    → HasOutput previous text out
    → Gives (λ u. IsInput previous text out) (require_input out text)
unfolding require_input
require_input-IsInput previous text (some out) h = Gives-ok _ _ h
require_input-IsInput previous none none h = Gives-throw _ _
require_input-IsInput previous (some t) none h = record {
  at = λ u e. (t, refl, (throw_if-Gives (is_blank t) _).at u e);
}

pub record IsValid (r : Request) : Type 0 where
  pub input : IsInput r.previous_id r.text r.tool_output
  pub model : IsModel r.previous_id r.model
  pub tools : AreTools r.tools

validate_request-Gives :
    (body : Value) (default_model : Option String)
    → Gives IsValid (validate_request body default_model)
unfolding validate_request
validate_request-Gives body default_model = Gives-then _ _ _ λ a. Gives-then _ _ _ λ b.
    Gives-then _ _ _ λ stream. Gives-then _ _ _ λ c. Gives-then _ _ _ λ previous.
      Gives-bind (IsModel previous) _ _ _ (check_model-IsModel _ previous) λ model model_ok.
        Gives-then _ _ _ λ instructions. Gives-then _ _ _ λ effort.
          Gives-bind AreTools _ _ _ (tools_of-AreTools (get body "tools")) λ tools tools_ok.
            Gives-bind (Shape previous) _ _ _ (input_of-Shape (get body "input") previous)
              λ input shape.
                Gives-bind (λ u. IsInput previous input.text input.tool_output) _ _ _
                  (require_input-IsInput previous input.text input.tool_output shape)
                  λ u input_ok.
                    Gives-ok _ _ (record { input = input_ok; model = model_ok; tools = tools_ok })

-- A body that passes validation, whatever the body and the configured model: either there is one
-- text, not blank, and no tool output, or there is a tool output with a non-empty call id, no text,
-- and a previous response id; the model is absent only where a response is continued, else it is
-- not blank and at most 128 UTF-16 units long; and the tools are at most 32, with names that are
-- well-formed and all different.
pub validate_request-IsValid :
    (body : Value) (default_model : Option String) (r : Request)
    → validate_request body default_model ≡ ok r
    → IsValid r
validate_request-IsValid body default_model r e = (validate_request-Gives body default_model).at r e
