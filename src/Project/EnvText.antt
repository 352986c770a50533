-- ===== src/Project/EnvText.antt =====
-- src/project.rs, `parse_env_text`: lines `key=value`, where blank lines and lines that start with
-- `#` are passed over.
use codex_mimo_adapter.Base.{
  ℕ, suc, ◌+◌, String, ◌||◌, Option, none, some, List, [], ◌∷◌, if◌then◌else◌,
}
use codex_mimo_adapter.Base.Assoc.{insert}
use codex_mimo_adapter.Base.Decimal.{decimal}
use codex_mimo_adapter.Base.Result.{Result, ok, err}
use codex_mimo_adapter.Base.Str.{
  lines, trim, split_once, is_empty, has_prefix, strip_prefix, concat,
}
use codex_mimo_adapter.Config.{Env}

-- what a line says: nothing, a setting, or nothing that can be read
pub data Line : Type 0 where
  blank invalid : Line
  setting : String → String → Line

abbrev pub read_setting : Option (String × String) → Line
read_setting none = invalid
read_setting (some (key, value)) = setting (trim key) (trim value)

unfoldable pub read_line : String → Line
unfolding trim strip_prefix split_once
read_line raw_line =
    let line = trim raw_line in
    if is_empty line || has_prefix "#" line then blank else read_setting (split_once "=" line)

-- the loop over the lines, the index of the first one given
unfoldable pub parse_lines : ℕ → List String → Env → Result String Env
unfolding read_line insert decimal
parse_lines index [] values = ok values
parse_lines index (raw_line ∷ rest) values = elim (read_line raw_line) [
  | blank ↦ parse_lines (suc index) rest values
  | setting key value ↦ parse_lines (suc index) rest (insert key value values)
  | invalid ↦ err (concat ("invalid env line " ∷ decimal (index + 1) ∷ ": " ∷ raw_line ∷ []))
]

unfoldable pub parse_env_text : String → Result String Env
unfolding parse_lines lines
parse_env_text contents = parse_lines 0 (lines contents) []
