-- ===== src/Tools/Coherent.antt =====
-- The tools that are sent upstream: their names all differ, and a call of one of them is found back.
use codex_mimo_adapter.Base.{
  String, ◌≡◌, refl, ap, sym, ◌∙◌, arith, false, Option, none, some, List, [], ◌∷◌, ◌++◌, ◌==◌,
  eq_iff, eq_refl, map, contains, contains-append, Inside, Inside-at, Distinct, All, All-append,
  Bool-cases, inl, inr,
}
use mathlib.Core.Path.{subst}
use codex_mimo_adapter.Base.Assoc
use codex_mimo_adapter.Json.{
  Value, get, get_str, and_then, unwrap_or, fields, insert, lookup, Serde,
}
use codex_mimo_adapter.Tools.{
  ToolContext, ToolSpec, note_used, note_namespace, chat_tool, add_chat_tool, build_with_input,
}
use codex_mimo_adapter.Tools.Walk.{IsToolInvariant, build_with_input-Holds}

-- `tool["function"]["name"]`
unfoldable pub tool_name : Value → String
unfolding get get_str
tool_name tool = unwrap_or "" (and_then (get "function" tool) (get_str "name"))

abbrev pub tool_names : ToolContext → List String
tool_names context = map tool_name context.chat_tools

-- The context knows the name: it has a specification under it that carries the name.
abbrev pub Knows : List (String × ToolSpec) → String → Type 0
Knows specs name = (spec : ToolSpec) × (Assoc.get name specs ≡ some spec) × (spec.chat_name ≡ name)

pub record IsCoherent (context : ToolContext) : Type 0 where
  pub distinct : Distinct (tool_names context)
  pub noted : Inside context.used (tool_names context)
  pub known : All (Knows context.specs_by_chat_name) (tool_names context)

tool_name-chat_tool :
    (name description : String) (parameters : Value)
    → tool_name (chat_tool name description parameters) ≡ name
unfolding tool_name lookup fields insert
tool_name-chat_tool name description parameters = refl

tool_names-append :
    (tools : List Value) (name description : String) (parameters : Value)
    → map tool_name (tools ++ chat_tool name description parameters ∷ [])
      ≡ map tool_name tools ++ name ∷ []
tool_names-append [] name d p = ap (λ n. n ∷ []) (tool_name-chat_tool name d p)
tool_names-append (t ∷ tools) name d p = ap (◌∷◌ (tool_name t)) (tool_names-append tools name d p)

Distinct-append :
    (xs : List String) (x : String) → Distinct xs → contains xs x ≡ false → Distinct (xs ++ x ∷ [])
Distinct-append [] x d n = (refl, tt)
Distinct-append (y ∷ xs) x d n = (
  ground (arith, contains-append xs (x ∷ []) y, eq_iff y x, eq_iff x y, d.0, n),
  Distinct-append xs x d.1 (ground (arith, n)),
)

Inside-more :
    (x : String) (used xs : List String) → Inside used xs → Inside (x ∷ used) (xs ++ x ∷ [])
Inside-more x used [] i = (rw (eq_refl x) refl, tt)
Inside-more x used (y ∷ xs) i = (ground (arith, i.0), Inside-more x used xs i.1)

Knows-insert :
    (name : String) (spec : ToolSpec) (specs : List (String × ToolSpec))
    → spec.chat_name ≡ name
    → (other : String) → Knows specs other
    → Knows (Assoc.insert name spec specs) other
Knows-insert name spec specs e other (s, found, named) = elim (Bool-cases (name == other)) [
  | inl same ↦
      (spec, Assoc.get-insert name other spec specs ∙ rw same refl, e ∙ (eq_iff name other).0 same)
  | inr apart ↦ (s, Assoc.get-insert name other spec specs ∙ rw apart found, named)
]

All-map :
    {P Q : String → Type 0} (xs : List String) → ((x : String) → P x → Q x) → All P xs → All Q xs
All-map [] k h = tt
All-map (x ∷ xs) k h = (k x h.0, All-map xs k h.1)

add_chat_tool-IsCoherent :
    (c : ToolContext) (original : String) (spec : ToolSpec) (parameters : Value)
    (description : String) (namespaces : List (String × String × String))
    → contains c.used spec.chat_name ≡ false
    → IsCoherent c
    → IsCoherent (
        add_chat_tool original spec parameters description
          (record c { used = spec.chat_name ∷ c.used; namespace_name_to_chat_name = namespaces }))
unfolding add_chat_tool
add_chat_tool-IsCoherent c original spec parameters description namespaces fresh h =
    let name = spec.chat_name in
    let added = tool_names-append c.chat_tools name description parameters in
    let new : contains (tool_names c) name ≡ false =
      elim (Bool-cases (contains (tool_names c) name)) [
        | inl old ↦ absurd (cc (Inside-at c.used (tool_names c) name h.noted old, fresh))
        | inr new ↦ new
      ] in
    record {
      distinct = subst Distinct (sym added) (Distinct-append (tool_names c) name h.distinct new);
      noted =
          subst (Inside (name ∷ c.used)) (sym added)
            (Inside-more name c.used (tool_names c) h.noted);
      known = subst (All (Knows (Assoc.insert name spec c.specs_by_chat_name))) (sym added) (
          All-append (Knows (Assoc.insert name spec c.specs_by_chat_name)) (tool_names c)
            (name ∷ [])
            (All-map (tool_names c) (Knows-insert name spec c.specs_by_chat_name refl) h.known)
            (
              (
                spec,
                Assoc.get-insert name name spec c.specs_by_chat_name ∙ rw (eq_refl name) refl,
                refl,
              ),
              tt,
            ));
    }

coherent : IsToolInvariant IsCoherent
unfolding note_namespace
coherent = record {
  start = record { distinct = tt; noted = tt; known = tt };
  add = λ c original spec parameters description ns name fresh h.
      added c original spec parameters description ns name fresh h;
}
  where
    added :
        (c : ToolContext) (original : String) (spec : ToolSpec) (parameters : Value)
        (description : String) (ns : Option String) (name : String)
        → contains c.used spec.chat_name ≡ false
        → IsCoherent c
        → IsCoherent (
            add_chat_tool original spec parameters description
              (note_namespace ns name spec.chat_name (note_used spec.chat_name c)))
    added c original spec parameters description none name fresh h =
        add_chat_tool-IsCoherent c original spec parameters description _ fresh h
    added c original spec parameters description (some n) name fresh h =
        add_chat_tool-IsCoherent c original spec parameters description _ fresh h

-- Whatever tools and input a request has: the chat tools that `build_with_input` makes of them have
-- names that all differ, and each name has a specification under it that carries the name.
pub build_with_input-IsCoherent :
    (serde : Serde) (tools input : Option Value) → IsCoherent (build_with_input serde tools input)
build_with_input-IsCoherent serde tools input = build_with_input-Holds coherent serde tools input
