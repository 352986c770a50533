-- ===== src/Tests/Names.antt =====
-- Names of tools.
use codex_mimo_adapter.Base.{String, ◌≡◌, refl, arith, false, some, none, List, [], ◌∷◌, contains}
use codex_mimo_adapter.Json.{Value, string, obj, arr}
use codex_mimo_adapter.Tools.{safe_name, build_with_input}
use codex_mimo_adapter.Tools.SafeName.{safe_name_lem}
use codex_mimo_adapter.Tools.ChatName.{IsChatName, safe_name-IsChatName}
use codex_mimo_adapter.Tools.Coherent.{
  IsCoherent, build_with_input-IsCoherent, tool_name, tool_names,
}
use codex_mimo_adapter.Tests.Samples.{serde}

abbrev used : List String
used = "run_it_2" ∷ "run_it" ∷ []

renamed : safe_name used "run it" ≡ "run_it_3"
unfolding safe_name
renamed = refl

safe_name_lem_example : contains used (safe_name used "run it") ≡ false
safe_name_lem_example = safe_name_lem used "run it"

safe_name-IsChatName_example : IsChatName (safe_name used "run it")
safe_name-IsChatName_example = safe_name-IsChatName used "run it" (omega arith)

-- two tools of one name, and a namespace
abbrev tools : Value
tools = arr (
    obj (("type", string "function") ∷ ("name", string "run it") ∷ [])
    ∷ string "run it"
    ∷ obj (
        ("type", string "namespace")
        ∷ ("name", string "files")
        ∷ ("tools", arr (obj (("name", string "read") ∷ []) ∷ []))
        ∷ [])
    ∷ [])

names_of_tools :
    tool_names (build_with_input serde (some tools) none)
    ≡ "run_it" ∷ "run_it_2" ∷ "files__read" ∷ []
unfolding build_with_input tool_name
names_of_tools = refl

build_with_input-IsCoherent_example : IsCoherent (build_with_input serde (some tools) none)
build_with_input-IsCoherent_example = build_with_input-IsCoherent serde (some tools) none
