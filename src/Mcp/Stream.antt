-- ===== src/Mcp/Stream.antt =====
-- The answers of app/gateway/mcp_transport.py: `parse_mcp_response_body` and the event stream.
pub mod Messages
use Prim.Native.String.{slice, len}
use text.Mathlib.Text.{starts_with}
use ai_runtime_platform.Base.{
  String, Bool, true, false, not, ◌&&◌, ◌||◌, Option, none, some, List, [], ◌∷◌, ◌++◌, str_eq,
  if◌then◌else◌, Result, ok, err, append, or_raise,
}
use ai_runtime_platform.Mcp.{Json, null, bool, number, string, array, object, Fields, Python}

-- The ValueErrors of the parser.
pub data ParseError : Type 0 where
  no_json no_object no_message : ParseError

-- `"\n".join(lines)`
abbrev pub join : List String → String
join [] = ""
join (l ∷ []) = l
join (l ∷ m ∷ ls) = append l (append "\n" (join (m ∷ ls)))

abbrev pub no_lines {ℓ} : {A : Type ℓ} → List A → Bool
no_lines [] = true
no_lines (x ∷ xs) = false

-- `isinstance(parsed, dict)`
abbrev pub object_of : Option Json → Option Fields
object_of none = none
object_of (some (object fs)) = some fs
object_of (some null) = none
object_of (some (bool b)) = none
object_of (some (number n)) = none
object_of (some (string t)) = none
object_of (some (array vs)) = none

abbrev pub or_keep {ℓ} : {A : Type ℓ} → Option A → Option A → Option A
or_keep none last = last
or_keep (some found) last = some found

module _ (py : Python) where
  -- what an event's data says
  unfoldable pub decode : List String → Option Fields
  decode data_lines =
      let blob = py.strip (join data_lines) in
      if str_eq blob "" || str_eq blob "[DONE]" then none else object_of (py.loads blob)

  abbrev pub data_text : String → String
  data_text line = py.lstrip (slice line 5 (len line))

  -- the loop of `_parse_sse_jsonrpc` and what follows it
  unfoldable pub read_lines : List String → List String → Option Fields → Option Fields
  unfolding decode
  read_lines [] data_lines last =
      if no_lines data_lines then last else or_keep (decode data_lines) last
  read_lines (raw_line ∷ raw_lines) data_lines last =
      let line = py.rstrip "\r" raw_line in
      let with_data = read_lines raw_lines (data_lines ++ data_text line ∷ []) last in
      let closed = read_lines raw_lines [] (or_keep (decode data_lines) last) in
      let kept = read_lines raw_lines data_lines last in
      if starts_with line "data:"
      then with_data
      else if str_eq line "" && not (no_lines data_lines)
      then closed
      else kept

  -- `_parse_sse_jsonrpc`
  unfoldable pub parse_sse_jsonrpc : String → Result ParseError Fields
  unfolding read_lines
  parse_sse_jsonrpc body = or_raise (read_lines (py.splitlines body) [] none) no_message

  abbrev pub object_or_raise : Option Json → Result ParseError Fields
  object_or_raise none = err no_json
  object_or_raise (some v) = or_raise (object_of (some v)) no_object

  -- `parse_mcp_response_body`, of a decoded body
  unfoldable pub parse_mcp_response_body : String → String → Result ParseError Fields
  unfolding parse_sse_jsonrpc
  parse_mcp_response_body content_type body =
      let trimmed = py.strip body in
      if py.contains "text/event-stream" (py.lower content_type)
        || (starts_with trimmed "event:" || starts_with trimmed "data:")
      then parse_sse_jsonrpc trimmed
      else object_or_raise (py.loads trimmed)
