-- ===== src/Mcp/Http/Headers.antt =====
-- Which headers the client of pkg/mcp/http_client.go sends.
use text.Mathlib.Text.{◌==◌ as str_eq}
use mcp_adapter_engram.Base.{
  String, ◌≡◌, refl, ap, ◌∙◌, Option, none, some, [], ◌∷◌, Map, lookup, lookup-insert, copy_into,
  IsDistinct, or_else, lookup-copy_into, if◌then◌else◌,
}
use mcp_adapter_engram.Mcp.Http.{client_headers}

-- The headers that are sent where nobody sets them.
abbrev pub default_header : String → Option String
default_header name =
    if str_eq "Content-Type" name
    then some "application/json"
    else if str_eq "Accept" name
    then some "application/json, text/event-stream"
    else none

abbrev default_headers : Map String
default_headers =
    ("Content-Type", "application/json") ∷ ("Accept", "application/json, text/event-stream") ∷ []

lookup-default_headers : (name : String) → lookup name default_headers ≡ default_header name
unfolding lookup
lookup-default_headers name = refl

-- Of two maps with no header twice: a header has the session's id if it is "Mcp-Session-Id"; if not,
-- it is the static one, or else the one from the secrets, or else the default.
pub lookup-client_headers :
    (name : String) (from_secrets static : Map String) (session_id : String)
    → IsDistinct from_secrets
    → IsDistinct static
    → lookup name (client_headers from_secrets static session_id) ≡ (
        if str_eq "Mcp-Session-Id" name
        then some session_id
        else or_else
            (lookup name static)
            (or_else (lookup name from_secrets) (default_header name)))
unfolding client_headers
lookup-client_headers name from_secrets static session_id d d' =
    let with_secrets = copy_into default_headers from_secrets in
    lookup-insert "Mcp-Session-Id" name session_id (copy_into with_secrets static)
    ∙ ap (λ o. if str_eq "Mcp-Session-Id" name then some session_id else o)
        (lookup-copy_into name with_secrets static d'
          ∙ ap (λ o. or_else (lookup name static) o)
              (lookup-copy_into name default_headers from_secrets d
                ∙ ap (λ o. or_else (lookup name from_secrets) o) (lookup-default_headers name)))
