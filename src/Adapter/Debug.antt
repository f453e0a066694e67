-- ===== src/Adapter/Debug.antt =====
-- pkg/adapter/debug.go: what is logged of a request and of its response.
use mcp_adapter_engram.Base.{
  String, Bool, true, false, Option, none, some, List, [], ◌∷◌, ◌++◌, if◌then◌else◌, Map,
}
use mcp_adapter_engram.Text.{is_empty}
use mcp_adapter_engram.Heap.{Value}
use mcp_adapter_engram.Adapter.Inputs.{Inputs}
use mcp_adapter_engram.Adapter.Process.{Data}

-- `slog.String`, and `slog.Any` of arguments and of data.
pub data Attr : Type 0 where
  text_attr : String → String → Attr
  arguments_attr : Map Value → Attr
  data_attr : Data → Attr

-- What comes of a call: nothing, a record, or a panic of Go for a nil logger.
pub data Logged : Type 0 where
  quiet : Logged
  writes : String → List Attr → Logged
  panics : Logged

-- From `sdk.DebugModeEnabled()` and `logger.Enabled(ctx, slog.LevelDebug)`, none for a nil logger.
unfoldable pub debug_enabled : Bool → Option Bool → Bool
debug_enabled true logger = true
debug_enabled false none = false
debug_enabled false (some enabled) = enabled

-- `logger.Debug`: a logger that is not enabled for the level writes nothing.
unfoldable pub write_debug : Option Bool → String → List Attr → Logged
write_debug none text attrs = panics
write_debug (some enabled) text attrs = if enabled then writes text attrs else quiet

abbrev add_text : String → String → List Attr → List Attr
add_text key value attrs = if is_empty value then attrs else attrs ++ text_attr key value ∷ []

abbrev add_arguments : Map Value → List Attr → List Attr
add_arguments [] attrs = attrs
add_arguments (kv ∷ args) attrs = attrs ++ arguments_attr (kv ∷ args) ∷ []

unfoldable pub request_attrs : Inputs → List Attr
request_attrs input = add_text "server" input.server (
    add_text "promptName" input.prompt_name (
      add_text "resourceURI" input.resource_uri (
        add_arguments input.arguments
          (add_text "tool" input.tool (text_attr "action" input.action ∷ [])))))

unfoldable pub log_adapter_request : Bool → Option Bool → Inputs → Logged
log_adapter_request debug logger input =
    if debug_enabled debug logger
    then write_debug logger "MCP adapter request" (request_attrs input)
    else quiet

unfoldable pub log_adapter_response : Bool → Option Bool → Data → Logged
log_adapter_response debug logger d =
    if debug_enabled debug logger
    then write_debug logger "MCP adapter response" (data_attr d ∷ [])
    else quiet
