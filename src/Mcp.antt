-- ===== src/Mcp.antt =====
-- app/gateway/mcp_transport.py: servers, sessions, credentials and the size of a result. What the
-- module takes from Python's library for texts and JSON is one record of functions.
pub mod Stream
pub mod Sessions
pub mod Calls
pub mod Tools
mod Witnesses
use Prim.Native.String.{slice, len}
use text.Mathlib.Text.{starts_with}
use ai_runtime_platform.Base.{
  ℕ, zero, suc, min, String, Bool, true, false, not, Option, none, some, List, [], ◌∷◌, str_eq, leb,
  ◌==◌, ◌||◌, if◌then◌else◌, length, Result, ok, err, append,
}
use ai_runtime_platform.Dict.{Dict}
use ai_runtime_platform.Money.{Float, finite, infinite, nan}

-- What `json.loads` gives.
mutual
  pub data Json : Type 0 where
    null : Json
    bool : Bool → Json
    number : Float → Json
    string : String → Json
    array : Items → Json
    object : Fields → Json

  pub data Items : Type 0 where
    no_items : Items
    item : Json → Items → Items

  -- a dict with text keys
  pub data Fields : Type 0 where
    no_fields : Fields
    field : String → Json → Fields → Fields

-- `d.get(k)`
unfoldable pub get_field : String → Fields → Option Json
get_field k no_fields = none
get_field k (field j v fs) = if str_eq j k then some v else get_field k fs

-- `k in d`
unfoldable pub has_field : String → Fields → Bool
has_field k no_fields = false
has_field k (field j v fs) = str_eq j k || has_field k fs

-- `bool(v)`
abbrev pub is_true : Json → Bool
is_true null = false
is_true (bool b) = b
is_true (number (finite minus d)) = not (d.coefficient == 0)
is_true (number infinite) = true
is_true (number nan) = true
is_true (string t) = not (str_eq t "")
is_true (array no_items) = false
is_true (array (item v vs)) = true
is_true (object no_fields) = false
is_true (object (field k v fs)) = true

-- `d.get(k) if isinstance(d.get(k), dict) else {}`
abbrev pub object_or_empty : Option Json → Fields
object_or_empty (some (object fs)) = fs
object_or_empty none = no_fields
object_or_empty (some null) = no_fields
object_or_empty (some (bool b)) = no_fields
object_or_empty (some (number n)) = no_fields
object_or_empty (some (string t)) = no_fields
object_or_empty (some (array vs)) = no_fields

-- `str.strip()`, `.lstrip()`, `.rstrip(chars)`, `.lower()`, `.splitlines()`, `part in whole`,
-- `json.loads` (`none` where it raises), `str` of a value, `json.dumps` with the compact separators
-- as bytes, `json.dumps` of a dict with sorted keys under sha256, as hex, and `os.getenv(k, "")`
pub record Python : Type 0 where
  pub strip : String → String
  pub lstrip : String → String
  pub rstrip : String → String → String
  pub lower : String → String
  pub splitlines : String → List String
  pub contains : String → String → Bool
  pub loads : String → Option Json
  pub str : Json → String
  pub dumps : Json → List ℕ
  pub sorted_sha256 : Fields → String
  pub getenv : String → String

-- The time limit and the other spellings of the fields are left out.
pub record McpServerConfig : Type 0 where
  pub url : String
  pub transport : String
  pub credential_ref : Option String
  pub max_result_bytes : ℕ
  pub session_mode : String
  pub capability_digest : Option String

-- `created_at`, which nothing reads, is left out.
pub record McpSession : Type 0 where
  pub server_name : String
  pub session_id : String
  pub protocol_version : Option String
  pub capabilities : Fields
  pub capability_digest : Option String

abbrev pub text_or_empty : Option String → String
text_or_empty none = ""
text_or_empty (some t) = t

-- The ValueErrors of `resolve_credential`.
pub data CredentialError : Type 0 where
  empty_name empty_value vault_reference unsupported_reference : CredentialError

-- `_truncate_result`: the value, or the preview of one that is too long
pub data Filtered : Type 0 where
  whole : Json → Filtered
  preview : ℕ → List ℕ → Filtered

-- `xs[:n]`
abbrev pub take {ℓ} : {A : Type ℓ} → ℕ → List A → List A
take zero xs = []
take (suc n) [] = []
take (suc n) (x ∷ xs) = x ∷ take n xs

module _ (py : Python) where
  -- the `env:` branch of `resolve_credential`
  abbrev pub credential_of : String → Result CredentialError (Option String)
  credential_of name =
      let value = py.strip (py.getenv name) in
      if str_eq name ""
      then err empty_name
      else if str_eq value ""
      then err empty_value
      else ok (some value)

  -- `resolve_credential`
  unfoldable pub resolve_credential : Option String → Result CredentialError (Option String)
  resolve_credential none = ok none
  resolve_credential (some ref) =
      if str_eq ref ""
      then ok none
      else if starts_with ref "env:"
      then credential_of (py.strip (slice ref 4 (len ref)))
      else if starts_with ref "vault://"
      then err vault_reference
      else err unsupported_reference

  -- `compute_capability_digest`
  unfoldable pub compute_capability_digest : Fields → String
  compute_capability_digest capabilities = append "sha256:" (py.sorted_sha256 capabilities)

  unfoldable pub truncate_result : Json → ℕ → Filtered × Bool
  truncate_result payload max_bytes =
      let encoded = py.dumps payload in
      if leb (length encoded) max_bytes
      then (whole payload, false)
      else (preview max_bytes (take (min 512 max_bytes) encoded), true)

  -- `_wants_session`
  unfoldable pub wants_session : McpServerConfig → Bool
  wants_session server =
      let mode = py.lower (if str_eq server.session_mode "" then "auto" else server.session_mode) in
      if str_eq mode "always"
      then true
      else if str_eq mode "never"
      then false
      else str_eq server.transport "streamable-http" || str_eq server.transport "sse"
