-- ===== src/Tools.antt =====
-- src/conversion/tool_context.rs: the Responses tools turned into chat tools, with safe names that
-- are found back. `serde` prints JSON; `order` is the order in which a `HashMap` is iterated over,
-- which the standard library leaves open.
pub mod SafeName
pub mod ChatName
pub mod Walk
pub mod Coherent
use codex_mimo_adapter.Base.{
  ℕ, zero, suc, ◌+◌, ◌-◌, String, str_append, Char, code, Bool, true, false, ◌&&◌, ◌||◌, Option,
  none, some, List, [], ◌∷◌, ◌++◌, ◌==◌, if◌then◌else◌, leb, num_eq, length, contains,
}
use codex_mimo_adapter.Base.Str.{is_empty, non_empty, trim, take_chars, concat, char_count}
use codex_mimo_adapter.Base.Assoc
use codex_mimo_adapter.Base.Decimal.{decimal}
use codex_mimo_adapter.Json.{
  Value, Items, Map, string, array, object, nil, cons, empty, entry, obj, arr, get, get_str,
  as_array, is_object, and_then, or_else, unwrap_or, Serde, fields,
}

abbrev pub chat_tool_name_max_len : ℕ
chat_tool_name_max_len = 64

abbrev pub custom_tool_input_field : String
custom_tool_input_field = "input"

abbrev pub tool_search_name : String
tool_search_name = "tool_search"

pub data ToolKind : Type 0 where
  function namespace custom tool_search : ToolKind

pub record ToolSpec : Type 0 where
  pub kind : ToolKind
  pub name : String
  pub chat_name : String
  pub namespace_of : Option String

pub record ToolContext : Type 0 where
  pub chat_tools : List Value
  pub reverse_names : List (String × String)
  pub specs_by_chat_name : List (String × ToolSpec)
  pub namespace_name_to_chat_name : List (String × String × String)
  pub used : List String

-- `ToolContext::default`
abbrev pub no_tools : ToolContext
no_tools = record {
  chat_tools = [];
  reverse_names = [];
  specs_by_chat_name = [];
  namespace_name_to_chat_name = [];
  used = [];
}

unfoldable pub restore_name : ToolContext → String → String
unfolding Assoc.get
restore_name context name = unwrap_or name (Assoc.get name context.reverse_names)

unfoldable pub lookup_spec : ToolContext → String → Option ToolSpec
unfolding Assoc.get
lookup_spec context chat_name = Assoc.get chat_name context.specs_by_chat_name

abbrev pub is_custom : ToolKind → Bool
is_custom custom = true
is_custom _ = false

abbrev pub is_tool_search : ToolKind → Bool
is_tool_search tool_search = true
is_tool_search _ = false

unfoldable pub is_custom_tool_chat_name : ToolContext → String → Bool
unfolding lookup_spec
is_custom_tool_chat_name context name = elim (lookup_spec context name) [
  | none ↦ false
  | some spec ↦ is_custom spec.kind
]

unfoldable pub is_tool_search_chat_name : ToolContext → String → Bool
unfolding lookup_spec
is_tool_search_chat_name context name = elim (lookup_spec context name) [
  | none ↦ false
  | some spec ↦ is_tool_search spec.kind
]

-- `HashMap::get` and `insert` at a pair of texts; an entry is the two keys and the chat name
unfoldable pub get_pair : String → String → List (String × String × String) → Option String
get_pair ns name [] = none
get_pair ns name ((ns', name', v) ∷ m) =
    if ns' == ns && name' == name then some v else get_pair ns name m

unfoldable pub insert_pair :
    String → String → String → List (String × String × String) → List (String × String × String)
insert_pair ns name v [] = (ns, name, v) ∷ []
insert_pair ns name v ((ns', name', w) ∷ m) =
    if ns' == ns && name' == name
    then (ns, name, v) ∷ m
    else (ns', name', w) ∷ insert_pair ns name v m

-- `find_map` over the reversed names
unfoldable pub find_original : String → List (String × String) → Option String
find_original name [] = none
find_original name ((safe, original) ∷ names) =
    if original == name then some safe else find_original name names

module _ (order : List (String × String) → List (String × String)) where
  unfoldable pub chat_name_for_response_function : ToolContext → String → Option String → String
  unfolding get_pair find_original take_chars
  chat_name_for_response_function context name namespace_name =
      elim (and_then namespace_name non_empty) [
        | some ns ↦
            unwrap_or (take_chars chat_tool_name_max_len (concat (ns ∷ "__" ∷ name ∷ [])))
              (get_pair ns name context.namespace_name_to_chat_name)
        | none ↦ unwrap_or name (find_original name (order context.reverse_names))
      ]

abbrev within : ℕ → ℕ → ℕ → Bool
within lo hi c = leb lo c && leb c hi

-- `c.is_ascii_alphanumeric() || c == '_' || c == '-'`
unfoldable pub is_safe_char : Char → Bool
is_safe_char ch =
    let c = code ch in
    within b'0' b'9' c || within b'A' b'Z' c || within b'a' b'z' c || num_eq c b'_' || num_eq c b'-'

unfoldable pub sanitize : String → String
unfolding is_safe_char
sanitize String.[] = ""
sanitize (String.◌∷◌ c s) = String.◌∷◌ (if is_safe_char c then c else "_") (sanitize s)

unfoldable pub base_name : String → String
unfolding sanitize take_chars
base_name original =
    let base = take_chars chat_tool_name_max_len (sanitize original) in
    if is_empty base then "tool" else base

-- the candidate of one round: `base` cut to leave room for `_<suffix>`, whose `len` is the count of
-- its characters, all ASCII
unfoldable pub numbered : String → ℕ → String
unfolding take_chars decimal
numbered base suffix =
    let tail = String.◌∷◌ "_" (decimal suffix) in
    str_append (take_chars (chat_tool_name_max_len - char_count tail) base) tail

-- `while self.used.contains(&candidate)`, on fuel; the suffix, of 32 bits in the source, is not wrapped
unfoldable pub unused_name : ℕ → List String → String → ℕ → String → String
unfolding numbered
unused_name zero used base suffix candidate = candidate
unused_name (suc fuel) used base suffix candidate = elim (contains used candidate) [
  | false ↦ candidate
  | true ↦ unused_name fuel used base (suffix + 1) (numbered base suffix)
]

-- `safe_name`: the name, before it is noted in `used`; with fuel for two rounds more than there are
-- used names
unfoldable pub safe_name : List String → String → String
unfolding unused_name base_name
safe_name used original =
    let base = base_name original in unused_name (length used + 2) used base 2 base

-- `tool_source` never returns `None`: it is the function object, or the item itself.
unfoldable pub tool_source : Value → Value
unfolding get
tool_source item = elim (get "function" item) [
  | some f ↦ if is_object f then f else item
  | none ↦ item
]

abbrev pub chat_tool : String → String → Value → Value
chat_tool name description parameters = obj (
    ("type", string "function")
    ∷ (
      "function",
      obj (
          ("name", string name)
          ∷ ("description", string description)
          ∷ ("parameters", parameters)
          ∷ []),
    )
    ∷ [])

-- `safe_name`'s last line and `add_chat_tool`: the spec's chat name is the fresh name
unfoldable pub add_chat_tool : String → ToolSpec → Value → String → ToolContext → ToolContext
unfolding Assoc.insert fields
add_chat_tool original spec parameters description context = record context {
  chat_tools = context.chat_tools ++ chat_tool spec.chat_name description parameters ∷ [];
  reverse_names = Assoc.insert spec.chat_name original context.reverse_names;
  specs_by_chat_name = Assoc.insert spec.chat_name spec context.specs_by_chat_name;
}

-- `self.used.insert(candidate)`
abbrev pub note_used : String → ToolContext → ToolContext
note_used name context = record context { used = name ∷ context.used }

module _ (serde : Serde) where
  open serde use {to_string}

  unfoldable pub custom_description : Value → String
  unfolding get_str
  custom_description item =
      let preserved = to_string item in
      elim (and_then (get_str "description" item) non_empty) [
        | none ↦ concat ("Original Responses custom tool definition:\n" ∷ preserved ∷ [])
        | some description ↦
            concat
              (description ∷ "\n\nOriginal Responses custom tool definition:\n" ∷ preserved ∷ [])
      ]

  unfoldable pub add_custom : Value → ToolKind → ToolContext → ToolContext
  unfolding get_str trim safe_name custom_description add_chat_tool fields
  add_custom item kind context =
      let original = trim (unwrap_or "" (get_str "name" item)) in
      let chat_name = safe_name context.used original in
      let added =
        add_chat_tool original
          (record { kind = kind; name = original; chat_name = chat_name; namespace_of = none })
          (obj (
            ("type", string "object")
            ∷ (
              "properties",
              obj (
                  (
                    custom_tool_input_field,
                    obj (
                        ("type", string "string")
                        ∷ ("description", string "Raw string input for the original custom tool.")
                        ∷ []),
                  )
                  ∷ []),
            )
            ∷ ("required", arr (string custom_tool_input_field ∷ []))
            ∷ []))
          (custom_description item) (note_used chat_name context) in
      if is_empty original then context else added

abbrev pub tool_search_parameters : Value
tool_search_parameters = obj (
    ("type", string "object")
    ∷ (
      "properties",
      obj (
          (
            "query",
            obj (
                ("type", string "string") ∷ ("description", string "Search query for tools.") ∷ []),
          )
          ∷ (
            "limit",
            obj (
                ("type", string "integer")
                ∷ ("description", string "Maximum number of tools to return.")
                ∷ []),
          )
          ∷ []),
    )
    ∷ ("required", arr (string "query" ∷ []))
    ∷ [])

unfoldable pub add_tool_search : Value → ToolContext → ToolContext
unfolding get_str safe_name add_chat_tool fields
add_tool_search item context =
    let chat_name = safe_name context.used tool_search_name in
    add_chat_tool tool_search_name
      (record {
        kind = tool_search;
        name = tool_search_name;
        chat_name = chat_name;
        namespace_of = none;
      })
      tool_search_parameters
      (unwrap_or "Search for tools available to the client." (get_str "description" item))
      (note_used chat_name context)

-- `.cloned().filter(Value::is_object).unwrap_or_else(...)`
unfoldable pub function_parameters : Value → Value
unfolding get fields
function_parameters source =
    unwrap_or (obj (("type", string "object") ∷ ("properties", object empty) ∷ []))
      (and_then (get "parameters" source) (λ v. if is_object v then some v else none))

abbrev pub function_kind : Option String → ToolKind
function_kind none = function
function_kind (some ns) = namespace

-- the namespace's entry, where there is a namespace
unfoldable pub note_namespace : Option String → String → String → ToolContext → ToolContext
unfolding insert_pair
note_namespace none name chat_name context = context
note_namespace (some ns) name chat_name context = record context {
  namespace_name_to_chat_name = insert_pair ns name chat_name context.namespace_name_to_chat_name;
}

unfoldable pub add_function : Value → Option String → Option String → ToolContext → ToolContext
unfolding get_str trim safe_name function_parameters note_namespace add_chat_tool
add_function source original_name ns context =
    let original = unwrap_or (trim (unwrap_or "" (get_str "name" source))) original_name in
    let chat_name = safe_name context.used original in
    let name = unwrap_or original (get_str "name" source) in
    let added =
      add_chat_tool original
        (record { kind = function_kind ns; name = name; chat_name = chat_name; namespace_of = ns })
        (function_parameters source) (unwrap_or "" (get_str "description" source))
        (note_namespace ns name chat_name (note_used chat_name context)) in
    if is_empty original then context else added

-- the body of the loop over a namespace's children
unfoldable pub add_child : String → Value → ToolContext → ToolContext
unfolding tool_source get_str trim add_function
add_child ns child context =
    let source = tool_source child in
    elim (get_str "name" source) [
      | none ↦ context
      | some child_name ↦
          if is_empty (trim child_name)
          then context
          else add_function source (some (concat (ns ∷ "__" ∷ child_name ∷ []))) (some ns) context
    ]

unfoldable pub add_children : String → List Value → ToolContext → ToolContext
unfolding add_child
add_children ns [] context = context
add_children ns (child ∷ children) context = add_children ns children (add_child ns child context)

unfoldable pub add_namespace : Value → ToolContext → ToolContext
unfolding get_str trim get add_children
add_namespace item context =
    let ns = trim (unwrap_or "" (get_str "name" item)) in
    elim (and_then (or_else (get "tools" item) (get "children" item)) as_array) [
      | none ↦ context
      | some children ↦ if is_empty ns then context else add_children ns children context
    ]

module _ (serde : Serde) where
  -- the match on the type of a tool object
  unfoldable pub add_typed_tool : String → Value → ToolContext → ToolContext
  unfolding add_namespace add_custom add_tool_search add_function tool_source
  add_typed_tool kind item context =
      if kind == "namespace"
      then add_namespace item context
      else if kind == "custom"
      then add_custom serde item custom context
      else if kind == "tool_search"
      then add_tool_search item context
      else add_function (tool_source item) none none context

  unfoldable pub add_response_tool : Value → ToolContext → ToolContext
  unfolding add_typed_tool get_str fields
  add_response_tool (string name) context =
      add_custom serde (obj (("type", string "custom") ∷ ("name", string name) ∷ [])) custom context
  add_response_tool (object m) context =
      add_typed_tool (unwrap_or "function" (get_str "type" (object m))) (object m) context
  add_response_tool _ context = context

  unfoldable pub add_response_tools : List Value → ToolContext → ToolContext
  unfolding add_response_tool
  add_response_tools [] context = context
  add_response_tools (item ∷ items) context =
      add_response_tools items (add_response_tool item context)

  -- what a `tool_search_output` object brings
  unfoldable pub add_found_tools : Map → ToolContext → ToolContext
  unfolding get_str get add_response_tools
  add_found_tools m context =
      if unwrap_or "" (get_str "type" (object m)) == "tool_search_output"
      then add_response_tools (unwrap_or [] (and_then (get "tools" (object m)) as_array)) context
      else context

  unfoldable mutual
    unfolding add_found_tools

    pub collect_tool_search_output_tools : Value → ToolContext → ToolContext
    collect_tool_search_output_tools (array items) context = collect_items items context
    collect_tool_search_output_tools (object m) context =
        collect_values m (add_found_tools m context)
    collect_tool_search_output_tools _ context = context

    pub collect_items : Items → ToolContext → ToolContext
    collect_items nil context = context
    collect_items (cons item items) context =
        collect_items items (collect_tool_search_output_tools item context)

    pub collect_values : Map → ToolContext → ToolContext
    collect_values empty context = context
    collect_values (entry k v m) context =
        collect_values m (collect_tool_search_output_tools v context)

  unfoldable pub build_with_input : Option Value → Option Value → ToolContext
  unfolding add_response_tools collect_tool_search_output_tools
  build_with_input tools input =
      let declared = add_response_tools (unwrap_or [] (and_then tools as_array)) no_tools in
      elim input [ none ↦ declared | some v ↦ collect_tool_search_output_tools v declared ]
