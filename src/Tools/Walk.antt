-- ===== src/Tools/Walk.antt =====
-- One walk over the code that fills a tool context: what every addition of a chat tool under a new
-- name keeps, the whole context has.
use codex_mimo_adapter.Base.{
  String, ◌≡◌, Bool, true, false, Option, none, some, List, [], ◌∷◌, ◌==◌, contains, if◌then◌else◌,
  Option-cases, inl, inr,
}
use codex_mimo_adapter.Base.Str.{is_empty, trim, concat}
use codex_mimo_adapter.Json.{
  obj, Value, Items, Map, string, array, object, nil, cons, empty, entry, get, get_str, and_then,
  or_else, as_array, unwrap_or, Serde,
}
use codex_mimo_adapter.Tools.{
  ToolContext, ToolSpec, ToolKind, no_tools, note_used, note_namespace, add_chat_tool, add_custom,
  add_tool_search, add_function, add_child, add_children, add_namespace, add_typed_tool,
  add_response_tool, add_response_tools, add_found_tools, collect_tool_search_output_tools,
  collect_items, collect_values, build_with_input, safe_name, tool_source, tool_search,
  tool_search_name, tool_search_parameters, custom,
}
use codex_mimo_adapter.Tools.SafeName.{safe_name_lem}

pub record IsToolInvariant (P : ToolContext → Type 0) : Type 0 where
  pub start : P no_tools
  pub add :
      (context : ToolContext) (original : String) (spec : ToolSpec) (parameters : Value)
      (description : String) (ns : Option String) (name : String)
      → contains context.used spec.chat_name ≡ false
      → P context
      → P (
          add_chat_tool original spec parameters description
            (note_namespace ns name spec.chat_name (note_used spec.chat_name context)))

module _ {P : ToolContext → Type 0} (inv : IsToolInvariant P) where
  either-Holds : (b : Bool) (c d : ToolContext) → P c → P d → P (if b then c else d)
  either-Holds true c d h k = h
  either-Holds false c d h k = k

  add_custom-Holds :
      (serde : Serde) (item : Value) (kind : ToolKind) (c : ToolContext)
      → P c
      → P (add_custom serde item kind c)
  unfolding add_custom note_namespace
  add_custom-Holds serde item kind c h =
      either-Holds _ c _ h (inv.add c _ _ _ _ none "" (safe_name_lem c.used _) h)

  add_tool_search-Holds : (item : Value) (c : ToolContext) → P c → P (add_tool_search item c)
  unfolding add_tool_search note_namespace
  add_tool_search-Holds item c h =
      let spec : ToolSpec = record {
        kind = tool_search;
        name = tool_search_name;
        chat_name = safe_name c.used tool_search_name;
        namespace_of = none;
      } in
      inv.add c tool_search_name spec tool_search_parameters _ none ""
        (safe_name_lem c.used tool_search_name) h

  add_function-Holds :
      (source : Value) (original_name ns : Option String) (c : ToolContext)
      → P c
      → P (add_function source original_name ns c)
  unfolding add_function
  add_function-Holds source original_name ns c h =
      either-Holds _ c _ h (inv.add c _ _ _ _ ns _ (safe_name_lem c.used _) h)

  add_child-Holds : (ns : String) (child : Value) (c : ToolContext) → P c → P (add_child ns child c)
  unfolding add_child
  add_child-Holds ns child c h = elim (Option-cases (get_str "name" (tool_source child))) [
    | inl e ↦ rw (e, add_child) h
    | inr (child_name, e) ↦
        rw (e, add_child)
          (either-Holds (is_empty (trim child_name)) _ _ h (
            add_function-Holds (tool_source child) (some (concat (ns ∷ "__" ∷ child_name ∷ [])))
              (some ns) c h))
  ]

  add_children-Holds :
      (ns : String) (children : List Value) (c : ToolContext) → P c → P (add_children ns children c)
  unfolding add_children
  add_children-Holds ns [] c h = h
  add_children-Holds ns (child ∷ children) c h =
      add_children-Holds ns children (add_child ns child c) (add_child-Holds ns child c h)

  add_namespace-Holds : (item : Value) (c : ToolContext) → P c → P (add_namespace item c)
  unfolding add_namespace
  add_namespace-Holds item c h =
      elim (Option-cases (and_then (or_else (get "tools" item) (get "children" item)) as_array)) [
        | inl e ↦ rw (e, add_namespace) h
        | inr (children, e) ↦
            rw (e, add_namespace)
              (either-Holds (is_empty (trim (unwrap_or "" (get_str "name" item)))) _ _ h
                (add_children-Holds (trim (unwrap_or "" (get_str "name" item))) children c h))
      ]

  module _ (serde : Serde) where
    add_typed_tool-Holds :
        (kind : String) (item : Value) (c : ToolContext)
        → P c
        → P (add_typed_tool serde kind item c)
    unfolding add_typed_tool
    add_typed_tool-Holds kind item c h =
        either-Holds (kind == "namespace") _ _ (add_namespace-Holds item c h) (
          either-Holds (kind == "custom") _ _ (add_custom-Holds serde item custom c h) (
            either-Holds (kind == "tool_search") _ _ (add_tool_search-Holds item c h)
              (add_function-Holds (tool_source item) none none c h)))

    add_response_tool-Holds :
        (item : Value) (c : ToolContext) → P c → P (add_response_tool serde item c)
    unfolding add_response_tool
    add_response_tool-Holds (string name) c h =
        add_custom-Holds serde (obj (("type", string "custom") ∷ ("name", string name) ∷ [])) custom
          c h
    add_response_tool-Holds (object m) c h =
        add_typed_tool-Holds (unwrap_or "function" (get_str "type" (object m))) (object m) c h
    add_response_tool-Holds Value.null c h = h
    add_response_tool-Holds (Value.bool b) c h = h
    add_response_tool-Holds (Value.number n) c h = h
    add_response_tool-Holds (array items) c h = h

    add_response_tools-Holds :
        (items : List Value) (c : ToolContext) → P c → P (add_response_tools serde items c)
    unfolding add_response_tools
    add_response_tools-Holds [] c h = h
    add_response_tools-Holds (item ∷ items) c h =
        add_response_tools-Holds items (add_response_tool serde item c)
          (add_response_tool-Holds item c h)

    add_found_tools-Holds : (m : Map) (c : ToolContext) → P c → P (add_found_tools serde m c)
    unfolding add_found_tools
    add_found_tools-Holds m c h =
        either-Holds (unwrap_or "" (get_str "type" (object m)) == "tool_search_output") _ _
          (add_response_tools-Holds (unwrap_or [] (and_then (get "tools" (object m)) as_array)) c h)
          h

    mutual
      unfolding collect_tool_search_output_tools collect_items collect_values

      collect-Holds :
          (v : Value) (c : ToolContext) → P c → P (collect_tool_search_output_tools serde v c)
      collect-Holds (array items) c h = collect_items-Holds items c h
      collect-Holds (object m) c h =
          collect_values-Holds m (add_found_tools serde m c) (add_found_tools-Holds m c h)
      collect-Holds (string s) c h = h
      collect-Holds Value.null c h = h
      collect-Holds (Value.bool b) c h = h
      collect-Holds (Value.number n) c h = h

      collect_items-Holds :
          (items : Items) (c : ToolContext) → P c → P (collect_items serde items c)
      collect_items-Holds nil c h = h
      collect_items-Holds (cons item items) c h =
          collect_items-Holds items (collect_tool_search_output_tools serde item c)
            (collect-Holds item c h)

      collect_values-Holds : (m : Map) (c : ToolContext) → P c → P (collect_values serde m c)
      collect_values-Holds empty c h = h
      collect_values-Holds (entry k v m) c h =
          collect_values-Holds m (collect_tool_search_output_tools serde v c) (collect-Holds v c h)

    pub build_with_input-Holds :
        (tools input : Option Value) → P (build_with_input serde tools input)
    unfolding build_with_input
    build_with_input-Holds tools none =
        add_response_tools-Holds (unwrap_or [] (and_then tools as_array)) no_tools inv.start
    build_with_input-Holds tools (some v) =
        collect-Holds v _
          (add_response_tools-Holds (unwrap_or [] (and_then tools as_array)) no_tools inv.start)
