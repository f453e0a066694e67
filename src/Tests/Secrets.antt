-- ===== src/Tests/Secrets.antt =====
-- The secrets of adapter/handler.go in a concrete environment.
use mcp_adapter_engram.Base.{String, ◌≡◌, ◌⊎◌, refl, none, some, List, [], ◌∷◌, Map, lookup, insert}
use text.Mathlib.Text.{◌==◌ as str_eq}
use mcp_adapter_engram.Base.{if◌then◌else◌}
use mcp_adapter_engram.Text.{cut, cut_prefix}
use mcp_adapter_engram.Adapter.Secrets.{expand_env, System}
use mcp_adapter_engram.Adapter.Secrets.Leaks.{IsShown, expand_env-IsShown}

abbrev environment : List String
environment = "BUCKET_TOKEN=t0=1" ∷ "HOME=/root" ∷ []

abbrev system : System
system = record {
  getenv = λ name. if str_eq name "SECRET_server" then "env:BUCKET_" else "";
  environ = environment;
  read_dir = λ dir. [];
  read_file = λ name. none;
  prefix = "SECRET_";
  quote = λ text. text;
}

shown : lookup "TOKEN" (expand_env "BUCKET_" environment []) ≡ some "t0=1"
unfolding expand_env cut cut_prefix lookup insert
shown = refl

abbrev references : Map String
references = ("Authorization", " server : TOKEN ") ∷ []

expand_env-IsShown_example :
    (lookup {V = String} "TOKEN" [] ≡ some "t0=1") ⊎ IsShown "BUCKET_" environment "TOKEN" "t0=1"
expand_env-IsShown_example = expand_env-IsShown "BUCKET_" environment "TOKEN" "t0=1" [] shown
