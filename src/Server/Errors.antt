-- ===== src/Server/Errors.antt =====
-- src/server.rs: how errors of the upstream model are told to the client.
use codex_mimo_adapter.Base.{ℕ, String, Bool, ◌||◌, ◌&&◌, leb, if◌then◌else◌}
use codex_mimo_adapter.Base.Str.{contains_str, split_once}
use codex_mimo_adapter.MediaGuard.{
  is_multimodal_unsupported_error, unsupported_multimodal_error_message,
}
use codex_mimo_adapter.Upstream.{UpstreamError, http, network, invalid}

unfoldable pub is_history_error_message : String → Bool
unfolding split_once
is_history_error_message message =
    contains_str "tool output" message
    || contains_str "tool call" message
    || contains_str "tool history" message
    || contains_str "duplicate tool" message
    || contains_str "unknown tool" message
    || contains_str "invalid tool" message

unfoldable pub upstream_stream_error_type : String → String
unfolding is_multimodal_unsupported_error
upstream_stream_error_type message =
    if is_multimodal_unsupported_error message
    then "unsupported_multimodal_input"
    else "upstream_error"

unfoldable pub upstream_stream_error_message : String → String
unfolding is_multimodal_unsupported_error
upstream_stream_error_message message =
    if is_multimodal_unsupported_error message
    then unsupported_multimodal_error_message
    else message

-- `StatusCode::from_u16(status).unwrap_or(StatusCode::BAD_GATEWAY)`: a status has three digits.
abbrev pub status_code : ℕ → ℕ
status_code status = if leb 100 status && leb status 999 then status else 502

unfoldable pub upstream_http_status : UpstreamError → ℕ
upstream_http_status (http status message) = status_code status
upstream_http_status (network message) = 502
upstream_http_status (invalid message) = 502
