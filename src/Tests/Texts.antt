-- ===== src/Tests/Texts.antt =====
-- Think blocks.
use codex_mimo_adapter.Base.{◌≡◌, refl, some}
use codex_mimo_adapter.Text.{
  think_close_tag, split_at_think_close, split_incomplete_think_close_suffix,
}
use codex_mimo_adapter.Text.Kept.{IsKept, split_incomplete_think_close_suffix_lem}
use codex_mimo_adapter.Text.Think.{IsClosed, split_at_think_close-IsClosed}

split_incomplete_think_close_suffix_lem_example :
    IsKept think_close_tag "so it is</think" ("so it is", "</think")
unfolding split_incomplete_think_close_suffix
split_incomplete_think_close_suffix_lem_example =
    split_incomplete_think_close_suffix_lem "so it is</think"

closed : split_at_think_close "so it is</think>\n\nyes" ≡ some ("so it is", "yes")
unfolding split_at_think_close
closed = refl

split_at_think_close-IsClosed_example : IsClosed "so it is</think>\n\nyes" ("so it is", "yes")
split_at_think_close-IsClosed_example =
    split_at_think_close-IsClosed "so it is</think>\n\nyes" closed
