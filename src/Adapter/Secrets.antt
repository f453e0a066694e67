-- ===== src/Adapter/Secrets.antt =====
-- pkg/adapter/handler.go: secrets, from references to values, and the small functions on maps and
-- names beside them.
pub mod Leaks
pub mod Headers
use mcp_adapter_engram.Base.{
  String, ◌<>◌, Bool, true, false, Option, none, some, List, [], ◌∷◌, if◌then◌else◌, Map, lookup,
  insert, copy_into, Result, ok, err, Error, message, ◌>>=◌,
}
use mcp_adapter_engram.Text.{is_empty, trim_space, cut, cut_prefix, trim_right_by}
use mcp_adapter_engram.Base.{◌==◌}

-- The system: environment and files. `prefix` is `contracts.SecretPrefixEnv` of the SDK.
pub record System : Type 0 where
  -- `os.Getenv`
  pub getenv : String → String
  -- `os.Environ`
  pub environ : List String
  -- `os.ReadDir`, its entries with `IsDir`; empty if it fails at once
  pub read_dir : String → List (String × Bool)
  -- `os.ReadFile`; none for an error
  pub read_file : String → Option String
  pub prefix : String
  -- the verb `%q` of `fmt`
  pub quote : String → String

abbrev pub default_secret_bucket : String
default_secret_bucket = "server"

abbrev pub or_default : String → String
or_default bucket = if is_empty bucket then default_secret_bucket else bucket

abbrev of_parts : Option (String × String) → String → String × String
of_parts none ref = (default_secret_bucket, ref)
of_parts (some (bucket, key)) ref = (or_default (trim_space bucket), trim_space key)

-- The bucket and the key of a reference "bucket:key" or "key".
unfoldable pub parse_secret_ref : String → String × String
parse_secret_ref ref =
    let trimmed = trim_space ref in
    if is_empty trimmed then (default_secret_bucket, "") else of_parts (cut b':' trimmed) trimmed

-- One line of the environment, if it is a variable with the prefix and more.
abbrev keep_named : Option String → String → Map String → Map String
keep_named none value out = out
keep_named (some key) value out = if is_empty key then out else insert key value out

abbrev add_variable : String → Option (String × String) → Map String → Map String
add_variable prefix none out = out
add_variable prefix (some (name, value)) out = keep_named (cut_prefix name prefix) value out

unfoldable pub expand_env : String → List String → Map String → Map String
expand_env prefix [] out = out
expand_env prefix (env ∷ envs) out = expand_env prefix envs (add_variable prefix (cut b'=' env) out)

abbrev keep_content : String → Option String → Map String → Map String
keep_content name none out = out
keep_content name (some content) out = insert name (trim_right_by (λ c. c == b'\n') content) out

module _ (sys : System) where
  unfoldable pub resolve_secret_descriptor : String → String
  resolve_secret_descriptor bucket =
      trim_space (sys.getenv (sys.prefix <> or_default (trim_space bucket)))

  unfoldable pub resolve_secret_name : String → String
  resolve_secret_name bucket =
      trim_space (sys.getenv (sys.prefix <> (or_default (trim_space bucket) <> "_NAME")))

  unfoldable pub expand_files : String → List (String × Bool) → Map String → Map String
  expand_files dir [] out = out
  expand_files dir ((name, is_dir) ∷ entries) out =
      expand_files dir entries
        (if is_dir then out else keep_content name (sys.read_file (dir <> ("/" <> name))) out)

  abbrev expand_dir : Option String → Map String
  expand_dir none = []
  expand_dir (some dir) = expand_files dir (sys.read_dir dir) []

  abbrev expand_descriptor : String → Option String → Map String
  expand_descriptor desc (some prefix) = expand_env prefix sys.environ []
  expand_descriptor desc none = expand_dir (cut_prefix desc "file:")

  unfoldable pub expand_secret_bucket : String → Map String
  expand_secret_bucket bucket =
      let desc = resolve_secret_descriptor bucket in
      if is_empty bucket then [] else expand_descriptor desc (cut_prefix desc "env:")

  unfoldable pub build_env_for_runner : Map String
  build_env_for_runner = expand_secret_bucket default_secret_bucket

  abbrev found : String → String → String → Option String → Result String
  found header bucket key (some value) = ok value
  found header bucket key none = err (
      message (
        "server.headersFromSecret["
        <> (header
            <> ("]: key "
                <> (sys.quote key <> (" not found in secret bucket " <> sys.quote bucket))))))

  -- The value of one header.
  unfoldable pub resolve_header : String → String → Result String
  resolve_header header ref =
      let (bucket, key) = parse_secret_ref ref in
      if is_empty key
      then err (
          message (
            "server.headersFromSecret["
            <> (header <> ("]: secret reference " <> (sys.quote ref <> " must include a key")))))
      else found header bucket key (lookup key (expand_secret_bucket bucket))

  -- The loop over `HeadersFromSecret`. Go visits a map in any order: the list may be in any.
  unfoldable pub load_headers : Map String → Map String → Result (Map String)
  load_headers [] out = ok out
  load_headers ((header, ref) ∷ refs) out = do
    value ← resolve_header header ref
    load_headers refs (insert header value out)

  unfoldable pub load_headers_from_secret : Map String → Result (Map String)
  load_headers_from_secret refs = load_headers refs []

-- `maps.Clone` and `maps.Copy`
unfoldable pub merge_maps : Map String → Map String → Map String
merge_maps a b = copy_into a b

unfoldable pub first_non_empty : List String → String
first_non_empty [] = ""
first_non_empty (v ∷ values) =
    if is_empty (trim_space v) then first_non_empty values else trim_space v
