-- ===== src/Adapter/Secrets/Headers.antt =====
-- The headers that adapter/handler.go takes from secrets.
use text.Mathlib.Text.{◌==◌ as str_eq}
use mcp_adapter_engram.Base.{String, Option, none, some, Result, ok, err}
use mcp_adapter_engram.Adapter.Secrets.{resolve_header, System}

abbrev value_of : Result String → Option String
value_of (ok value) = some value
value_of (err x) = none

-- What a header should be: the value of its reference, or nothing where it has none.
abbrev pub resolved : System → String → Option String → Option String
resolved sys header none = none
resolved sys header (some ref) = value_of (resolve_header sys header ref)
