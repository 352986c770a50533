-- ===== src/Host.antt =====
-- What the program takes from its surroundings, as values: the JSON printer and parser, the random
-- identifiers in the order in which they are drawn, and the order in which a `HashMap` is read.
use codex_mimo_adapter.Base.{ℕ, String, List}
use codex_mimo_adapter.Json.{Serde}

pub record Host : Type 0 where
  pub serde : Serde
  -- `Uuid::new_v4().simple()`, the n-th one drawn
  pub uuid : ℕ → String
  pub order : List (String × String) → List (String × String)
