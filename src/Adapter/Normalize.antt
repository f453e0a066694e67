-- ===== src/Adapter/Normalize.antt =====
-- pkg/adapter/normalize.go: finding JSON in the texts of a result.
pub mod Verbatim
use mcp_adapter_engram.Base.{
  String, Bool, true, false, ◌||◌, Option, none, some, List, [], ◌∷◌, ◌++◌, if◌then◌else◌, length,
  Map, lookup,
}
use mcp_adapter_engram.Text.{is_empty, trim_space, has_prefix}
use mcp_adapter_engram.Heap.{
  Value, nil, str, list, obj, Heap, Decoded, elems, alloc, as_map, as_list, as_string, or_nil,
}
use mcp_adapter_engram.Json.{Codec}
use mcp_adapter_engram.Adapter.Path.{put_key}

-- The test `v == nil`.
abbrev pub is_nil : Value → Bool
is_nil nil = true
is_nil _ = false

-- `m[key]` of the map that a value is, with `none` where it is no map or lacks the key.
abbrev key_of : String → Option (Map Value) → Option Value
key_of key none = none
key_of key (some m) = lookup key m

unfoldable pub field : Heap → Value → String → Option Value
field h v key = key_of key (as_map h v)

-- `v[key].(string)`
unfoldable pub text_field : Heap → Value → String → Option String
unfolding field
text_field h v key = as_string (or_nil (field h v key))

abbrev first : List Value → Value
first [] = nil
first (x ∷ xs) = x

module _ (json : Codec) where
  unfoldable pub parse_json_text : String → Option Decoded
  parse_json_text text =
      let trimmed = trim_space text in
      if is_empty trimmed
      then none
      else if has_prefix trimmed "{" || has_prefix trimmed "["
      then json.unmarshal trimmed
      else none

  abbrev allocated : Heap → Option Decoded → Option Value × Heap
  allocated h none = (none, h)
  allocated h (some d) = let (v, h1) = alloc d h in (some v, h1)

  abbrev parse_some : Heap → Option String → Option Value × Heap
  parse_some h none = (none, h)
  parse_some h (some text) = allocated h (parse_json_text text)

  -- The JSON in the text under "text", where there is one.
  unfoldable pub parse_text_field : Heap → Value → Option Value × Heap
  parse_text_field h v = parse_some h (text_field h v "text")

  -- `if _, exists := entry["parsed"]; !exists { entry["parsed"] = parsed }`
  unfoldable pub note_parsed : Heap → Value → Option Value → Heap
  note_parsed h item none = h
  note_parsed h item (some parsed) = elim (field h item "parsed") [
    | none ↦ put_key h item "parsed" parsed
    | some old ↦ h
  ]

  abbrev append_some : List Value → Option Value → List Value
  append_some xs none = xs
  append_some xs (some x) = xs ++ x ∷ []

  -- The loop of `parseDataItemJSON`. An item that is no map, or has no text, or none with JSON in
  -- it, is passed over.
  unfoldable pub parse_items : List Value → Heap → List Value → List Value × Heap
  parse_items parsed h [] = (parsed, h)
  parse_items parsed h (item ∷ items) =
      let (p, h1) = parse_text_field h item in
      parse_items (append_some parsed p) (note_parsed h1 item p) items

  -- Nil, the one item, or a new slice of the items.
  unfoldable pub collect_items : List Value → Heap → Value × Heap
  collect_items [] h = (nil, h)
  collect_items (p ∷ []) h = (p, h)
  collect_items (p ∷ q ∷ ps) h = (list (length h), h ++ elems (p ∷ q ∷ ps) ∷ [])

  unfoldable pub parse_data_item_json : Heap → Value → Value × Heap
  parse_data_item_json h v = elim (as_list h (or_nil (field h v "data"))) [
    | none ↦ (nil, h)
    | some items ↦ let (parsed, h1) = parse_items [] h items in collect_items parsed h1
  ]

  -- What `parseJSONRPCContent` does with one map, its data items and then its text, with `none`
  -- where it goes on.
  unfoldable pub parse_content_map : Heap → Value → Option Value × Heap
  parse_content_map h v =
      let (parsed, h1) = parse_data_item_json h v in
      if is_nil parsed then parse_text_field h1 v else (some parsed, h1)

  -- `if !ok { continue }` on what is no map
  unfoldable pub parse_content_item : Heap → Value → Option Value × Heap
  parse_content_item h v = elim (as_map h v) [ none ↦ (none, h) | some m ↦ parse_content_map h v ]

  unfoldable pub parse_content_list : Heap → List Value → Option Value × Heap
  parse_content_list h [] = (none, h)
  parse_content_list h (item ∷ items) =
      let (parsed, h1) = parse_content_item h item in
      elim parsed [ none ↦ parse_content_list h1 items | some p ↦ (some p, h1) ]

  unfoldable pub parse_content : Heap → Value → Option Value × Heap
  parse_content h content = elim (as_map h content) [
    | some m ↦ parse_content_map h content
    | none ↦ elim (as_list h content) [ none ↦ (none, h) | some items ↦ parse_content_list h items ]
  ]

  unfoldable pub parse_jsonrpc_content : Heap → Value → Value × Heap
  parse_jsonrpc_content h v = elim (field h (or_nil (field h v "result")) "content") [
    | none ↦ (nil, h)
    | some content ↦ let (parsed, h1) = parse_content h content in (or_nil parsed, h1)
  ]

  -- The second half of the map case: the text, or else the JSON-RPC content.
  unfoldable pub normalize_text : Heap → Value → Value × Heap
  normalize_text h v =
      let (parsed, h1) = parse_text_field h v in
      elim parsed [ none ↦ parse_jsonrpc_content h1 v | some p ↦ (p, h1) ]

  unfoldable pub normalize_map : Heap → Value → Value × Heap
  normalize_map h v =
      let (parsed, h1) = parse_data_item_json h v in
      if is_nil parsed then normalize_text h1 v else (parsed, h1)

  -- `normalizeMCPResult`: what was parsed, or nil. The other value that Go returns is the argument
  -- itself, whose objects may have changed.
  unfoldable pub normalize_mcp_result : Heap → Value → Value × Heap
  normalize_mcp_result h (obj a) = normalize_map h (obj a)
  normalize_mcp_result h (str s) =
      let (parsed, h1) = allocated h (parse_json_text s) in (or_nil parsed, h1)
  normalize_mcp_result h _ = (nil, h)

  abbrev put_text_and_parsed : Heap → Value → Value → Option String → Bool × Heap
  put_text_and_parsed h v parsed none = (false, h)
  put_text_and_parsed h v parsed (some b) =
      (true, put_key (put_key h v "text" (str b)) v "parsed" parsed)

  unfoldable pub update_content_map : Heap → Value → Value → Bool × Heap
  update_content_map h content parsed = elim (text_field h content "text") [
    | some t ↦ put_text_and_parsed h content parsed (json.marshal h parsed)
    | none ↦ elim (as_list h (or_nil (field h content "data"))) [
      | none ↦ (false, h)
      | some items ↦ elim (text_field h (first items) "text") [
        | none ↦ (false, h)
        | some t ↦ put_text_and_parsed h (first items) parsed (json.marshal h parsed)
      ]
    ]
  ]

  -- The loop over a content list; it ends at the first item that was updated.
  unfoldable pub update_items : Heap → List Value → Value → Bool × Heap
  update_items h [] parsed = (false, h)
  update_items h (item ∷ items) parsed = elim (as_map h item) [
    | none ↦ update_items h items parsed
    | some m ↦
        let (done, h1) = update_content_map h item parsed in
        let rest = update_items h1 items parsed in if done then (true, h1) else rest
  ]

  unfoldable pub update_normalized_with_parsed : Heap → Value → Value → Bool × Heap
  update_normalized_with_parsed h normalized parsed =
      elim (field h (or_nil (field h normalized "result")) "content") [
        | none ↦ (false, h)
        | some content ↦ elim (as_map h content) [
          | some m ↦ update_content_map h content parsed
          | none ↦ elim (as_list h content) [
            | none ↦ (false, h)
            | some items ↦ update_items h items parsed
          ]
        ]
      ]
