-- ===== src/Bridge/Strange.antt =====
-- src/bridge.mjs: which requests of the app-server are no call that it takes.
use codex_official_bridge.Prelude.{
  ℕ, ◌≤◌, ◌≢◌, refl, ap, sym, ◌∙◌, String, Bool, Option, List, ◌||◌, ◌⊕◌, length, get_elem?-none,
  Among, Among-includes, includes, unequal-texts, if◌then◌else◌, arith, ◌≡◌, ◌⊎◌, true, false, not,
  ◌&&◌, none, some, ◌==◌, inl, inr,
}
use codex_official_bridge.Json.{
  Fields, str, obj, is_string, is_object, Value, get, is_truthy, strict_eq,
}
use codex_official_bridge.Text.{decimal, strip_prefix}
use codex_official_bridge.Text.Laws.{strip_prefix_sound}
use codex_official_bridge.Protocol.Request.{Tool}
use codex_official_bridge.Protocol.Tools.{find_tool, find_tool-name, wire_prefix, find_digits}
use codex_official_bridge.Bridge.{Session, Notice}
use codex_official_bridge.Bridge.Events.{accepted_call, matched_text, call_id_of}

-- Why a request is no call of a registered tool: another method; a tool without the prefix of the
-- registered names, or with a number that no tool has; a call id that is no text or was there
-- before; arguments that are no object; a namespace; and a turn that is no text, or that is not the
-- one under way.
pub data IsRefused (s : Session) (n : Notice) : Type 0 where
  other_method : n.method ≢ "item/tool/call" → IsRefused s n
  foreign_tool :
      (name : String)
      → get n.params "tool" ≡ str name
      → ((rest : String) → name ≢ "bridge_fn_" ⊕ rest)
      → IsRefused s n
  unknown_tool :
      (i : ℕ)
      → get n.params "tool" ≡ str ("bridge_fn_" ⊕ decimal i)
      → length s.tools ≤ i
      → IsRefused s n
  no_call_id : ((id : String) → get n.params "callId" ≢ str id) → IsRefused s n
  repeated_call :
      (id : String) → get n.params "callId" ≡ str id → Among id s.seen_calls → IsRefused s n
  no_arguments : ((fields : Fields) → get n.params "arguments" ≢ obj fields) → IsRefused s n
  namespaced : is_truthy (get n.params "namespace") ≡ true → IsRefused s n
  no_turn : ((turn : String) → get n.params "turnId" ≢ str turn) → IsRefused s n
  other_turn :
      (turn asked : String)
      → s.turn_id ≡ str turn
      → turn ≢ ""
      → get n.params "turnId" ≡ str asked
      → asked ≢ turn
      → IsRefused s n

unequal_text : (a b : String) → a ≢ b → (a == b) ≡ false
unequal_text a b h = unequal-texts a b (λ e. h (sym e))

-- No call is accepted without a tool and a call id, or where a test on the call id says so.
none_accepted :
    (o : Option Tool) (c : Option String) (bad : String → Bool)
    → ((tool : Tool) (id : String) → o ≡ some tool → c ≡ some id → bad id ≡ true)
    → elim o as (λ _. Option (Tool × String)) [
      | none ↦ none
      | some tool ↦ elim c as (λ _. Option (Tool × String)) [
        | none ↦ none
        | some id ↦ if bad id then none else some (tool, id)
      ]
    ]
      ≡ none
none_accepted none c bad h = refl
none_accepted (some tool) none bad h = refl
none_accepted (some tool) (some id) bad h = rw (h tool id refl refl) refl

-- What is asked of a call whose tool and call id are known.
abbrev is_refused : Session → Value → String → Bool
is_refused s p id =
    is_truthy (get p "namespace")
    || not (is_string (get p "turnId"))
    || not (is_object (get p "arguments"))
    || includes s.seen_calls id
    || (is_truthy s.turn_id && not (strict_eq s.turn_id (get p "turnId")))

refused_if :
    (s : Session) (p : Value)
    → ((tool : Tool) (id : String)
        → find_tool s.tools (matched_text (get p "tool")) ≡ some tool
        → call_id_of (get p "callId") ≡ some id
        → is_refused s p id ≡ true)
    → accepted_call s p ≡ none
unfolding accepted_call
refused_if s p h =
    none_accepted (find_tool s.tools (matched_text (get p "tool"))) (call_id_of (get p "callId"))
      (is_refused s p) h

no_digits :
    (tools : List Tool) (o : Option String)
    → ((rest : String) → o ≢ some rest)
    → find_digits tools o ≡ none
no_digits tools none h = refl
no_digits tools (some rest) h = absurd (h rest refl)

foreign-find_tool :
    (tools : List Tool) (name : String)
    → ((rest : String) → name ≢ "bridge_fn_" ⊕ rest)
    → find_tool tools name ≡ none
unfolding find_tool
foreign-find_tool tools name h =
    no_digits tools (strip_prefix wire_prefix name)
      λ rest e. h rest (strip_prefix_sound wire_prefix name rest e)

unlike_text : (v : Value) → ((text : String) → v ≢ str text) → is_string v ≡ false
unlike_text (str text) h = absurd (h text refl)
unlike_text v h = refl

unlike_object : (v : Value) → ((fields : Fields) → v ≢ obj fields) → is_object v ≡ false
unlike_object (obj fields) h = absurd (h fields refl)
unlike_object v h = refl

unlike_id : (v : Value) (id : String) → ((text : String) → v ≢ str text) → call_id_of v ≢ some id
unlike_id (str text) id h = λ e. h text refl
unlike_id v id h = λ (e : none ≡ some id). cc

pub truthy_text : (text : String) → text ≢ "" → is_truthy (str text) ≡ true
unfolding is_truthy
truthy_text text h = rw (unequal_text text "" h) refl

same_id : (v : Value) (id text : String) → v ≡ str id → call_id_of v ≡ some text → id ≡ text
same_id v id text e f = cc (ap call_id_of e)

pub IsRefused-accepted_call :
    (s : Session) (n : Notice)
    → IsRefused s n
    → (n.method == "item/tool/call" ≡ false) ⊎ (accepted_call s n.params ≡ none)
IsRefused-accepted_call s n (other_method h) = inl (unequal_text n.method "item/tool/call" h)
IsRefused-accepted_call s n (foreign_tool name e h) = inr (
    refused_if s n.params λ tool id t _. absurd (
      let f = ap (λ v. find_tool s.tools (matched_text v)) e in
      let g = foreign-find_tool s.tools name h in cc))
IsRefused-accepted_call s n (unknown_tool i e h) = inr (
    refused_if s n.params λ tool id t _. absurd (
      let f = ap (λ v. find_tool s.tools (matched_text v)) e in
      let g = find_tool-name s.tools i in let none_there = get_elem?-none s.tools i h in cc))
IsRefused-accepted_call s n (no_call_id h) =
    inr (refused_if s n.params λ tool id _ c. absurd (unlike_id (get n.params "callId") id h c))
IsRefused-accepted_call s n (repeated_call id e h) = inr (
    refused_if s n.params λ tool other _ c.
      let same = same_id (get n.params "callId") id other e c in
      let seen : includes s.seen_calls other ≡ true =
        ap (includes s.seen_calls) (sym same) ∙ Among-includes s.seen_calls id h in
      ground (arith, seen))
IsRefused-accepted_call s n (no_arguments h) = inr (
    refused_if s n.params λ tool id _ _.
      let plain = unlike_object (get n.params "arguments") h in ground (arith, plain))
IsRefused-accepted_call s n (namespaced h) =
    inr (refused_if s n.params λ tool id _ _. ground (arith, h))
IsRefused-accepted_call s n (no_turn h) = inr (
    refused_if s n.params
      λ tool id _ _. let plain = unlike_text (get n.params "turnId") h in ground (arith, plain))
IsRefused-accepted_call s n (other_turn turn asked e h f g) = inr (
    refused_if s n.params λ tool id _ _.
      let under_way : is_truthy s.turn_id ≡ true = ap is_truthy e ∙ truthy_text turn h in
      let differ : strict_eq s.turn_id (get n.params "turnId") ≡ false =
        ap (λ v. strict_eq v (get n.params "turnId")) e
        ∙ ap (strict_eq (str turn)) f
        ∙ unequal-texts turn asked g in
      ground (arith, under_way, differ))
