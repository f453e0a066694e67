-- ===== src/Adapter/Transient.antt =====
-- pkg/adapter/handler.go: which tool results are worth another try.
pub mod Classifier
use mcp_adapter_engram.Base.{
  ℕ, ◌+◌, String, Bool, true, false, ◌&&◌, ◌||◌, Option, none, some, List, [], ◌∷◌, ◌++◌, ◌==◌, leb,
  if◌then◌else◌, Map, lookup, ℤ, pos, negsuc,
}
use mcp_adapter_engram.Text.{is_empty, trim_space, to_lower, codes, contains, atoi}
use mcp_adapter_engram.Heap.{
  Value, nil, num, str, Number, int, int32, int64, float32, float64, json_number, Heap, as_map,
  as_list, as_string, as_bool, or_nil, float_to_int,
}

-- The map under "result", where that is a map.
abbrev inner_map : Heap → Option Value → Option (Map Value)
inner_map h none = none
inner_map h (some v) = as_map h v

unfoldable pub unwrap_mcp_result : Heap → Value → Option (Map Value)
unwrap_mcp_result h result = elim (as_map h result) [
  | none ↦ none
  | some m ↦ elim (inner_map h (lookup "result" m)) [ none ↦ some m | some inner ↦ some inner ]
]

-- `int` has 64 bits, so `int(n)` keeps the values of `int32` and `int64`; `json.Number.Int64`
-- accepts the same texts as `strconv.Atoi`.
unfoldable pub parse_numeric_code : Value → Option ℤ
parse_numeric_code (num (int n)) = some n
parse_numeric_code (num (int32 n)) = some n
parse_numeric_code (num (int64 n)) = some n
parse_numeric_code (num (float64 f)) = some (float_to_int f)
parse_numeric_code (num (float32 f)) = some (float_to_int f)
parse_numeric_code (num (json_number s)) = atoi s
parse_numeric_code (str s) = atoi (trim_space s)
parse_numeric_code _ = none

-- `payload["error"].(map[string]any)`
abbrev error_object : Heap → Map Value → Option (Map Value)
error_object h payload = as_map h (or_nil (lookup "error" payload))

unfoldable pub extract_mcp_error_code : Heap → Map Value → Option ℤ
unfolding parse_numeric_code
extract_mcp_error_code h payload = elim (parse_numeric_code (or_nil (lookup "code" payload))) [
  | some code ↦ some code
  | none ↦ elim (error_object h payload) [
    | none ↦ none
    | some e ↦ parse_numeric_code (or_nil (lookup "code" e))
  ]
]

-- -32099 to -32000, and the HTTP statuses that pass.
unfoldable pub is_transient_error_code : ℤ → Bool
is_transient_error_code (negsuc n) = leb 31999 n && leb n 32098
is_transient_error_code (pos n) =
    n == 408 || n == 425 || n == 429 || n == 500 || n == 502 || n == 503 || n == 504

-- A string under a key, if it is not blank.
abbrev keep_text : Option String → List String
keep_text none = []
keep_text (some s) = if is_empty (trim_space s) then [] else s ∷ []

unfoldable pub text_at : String → Map Value → List String
text_at key m = keep_text (as_string (or_nil (lookup key m)))

abbrev texts_of : Option (Map Value) → List String
texts_of none = []
texts_of (some entry) = text_at "text" entry

-- The loop over `content`.
unfoldable pub content_texts : Heap → List Value → List String
unfolding text_at
content_texts h [] = []
content_texts h (item ∷ items) = texts_of (as_map h item) ++ content_texts h items

abbrev messages_of : Option (Map Value) → List String
messages_of none = []
messages_of (some e) = text_at "message" e

abbrev contents_of : Heap → Option (List Value) → List String
contents_of h none = []
contents_of h (some items) = content_texts h items

unfoldable pub extract_mcp_error_messages : Heap → Map Value → List String
unfolding text_at content_texts
extract_mcp_error_messages h payload =
    text_at "message" payload
    ++ (messages_of (error_object h payload)
        ++ contents_of h (as_list h (or_nil (lookup "content" payload))))

abbrev pub transient_hints : List String
transient_hints =
    "temporar" ∷ "try again" ∷ "timeout" ∷ "timed out" ∷ "deadline exceeded" ∷ "not logged in"
    ∷ "rate limit" ∷ "too many requests" ∷ "connection reset" ∷ "connection refused" ∷ "upstream"
    ∷ "unavailable" ∷ "service busy" ∷ "eai_again" ∷ []

-- `strings.Contains` of one hint after the other.
unfoldable pub has_hint : List ℕ → List String → Bool
has_hint msg [] = false
has_hint msg (hint ∷ hints) = contains msg (codes hint) || has_hint msg hints

unfoldable pub is_transient_error_message : String → Bool
unfolding has_hint
is_transient_error_message message =
    if is_empty (trim_space message)
    then false
    else has_hint (to_lower (trim_space message)) transient_hints

abbrev code_is_transient : Option ℤ → Bool
code_is_transient none = false
code_is_transient (some code) = is_transient_error_code code

unfoldable pub any_transient : List String → Bool
any_transient [] = false
any_transient (msg ∷ msgs) = is_transient_error_message msg || any_transient msgs

unfoldable pub is_mcp_transient_error : Heap → Value → Bool
is_mcp_transient_error h result = elim (unwrap_mcp_result h result) [
  | none ↦ false
  | some payload ↦
      if as_bool (or_nil (lookup "isError" payload))
      then code_is_transient (extract_mcp_error_code h payload)
        || any_transient (extract_mcp_error_messages h payload)
      else false
]

-- For tests: all that the classifier computes with.
unfoldable pub classifier : Unit {0}
unfolding is_mcp_transient_error unwrap_mcp_result extract_mcp_error_code is_transient_error_code
    extract_mcp_error_messages any_transient is_transient_error_message parse_numeric_code as_map
    as_list as_string as_bool lookup trim_space to_lower codes contains float_to_int atoi
classifier = tt
