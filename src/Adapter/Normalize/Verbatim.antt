-- ===== src/Adapter/Normalize/Verbatim.antt =====
-- The MCP payload comes back as it was: what `normalizeMCPResult` of adapter/normalize.go may change
-- in it.
use mcp_adapter_engram.Base.{
  ℕ, ◌≡◌, ◌⊎◌, inl, inr, Option, none, some, List, [], ◌∷◌, ◌++◌, arith, get_elem?,
  get_elem?-append_left, get_elem?-set_self, get_elem?-set_ne, set, Map, lookup, insert,
  Option-cases, Bool-cases, lookup-insert_self, ◌==◌,
}
use mcp_adapter_engram.Heap.{
  Value, str, obj, Heap, Object, entries, alloc, Decoded, as_map, as_list, or_nil,
}
use mcp_adapter_engram.Heap.Laws.{object_of_as_map}
use mcp_adapter_engram.Json.{Codec}
use mcp_adapter_engram.Adapter.Path.{put_key}
use mcp_adapter_engram.Adapter.Normalize.{
  field, allocated, append_some, text_field, is_nil, parse_text_field, parse_json_text, note_parsed,
  parse_items, collect_items, parse_data_item_json, parse_content_map, parse_content_item,
  parse_content_list, parse_content, parse_jsonrpc_content, normalize_text, normalize_map,
  normalize_mcp_result,
}

-- What becomes of one object: nothing, or it is a map that lacked "parsed" and has gained it.
abbrev pub Kept : Object → Option Object → Type 0
Kept o later =
    (later ≡ some o)
    ⊎ ((m : Map Value) × (p : Value) × (o ≡ entries m)
        × (lookup "parsed" m ≡ none)
        × (later ≡ some (entries (insert "parsed" p m))))

-- So for every object of the heap.
pub record Annotates (h h' : Heap) : Type 0 where
  pub kept : (a : ℕ) {o : Object} → get_elem? h a ≡ some o → Kept o (get_elem? h' a)

Annotates-refl : (h : Heap) → Annotates h h
Annotates-refl h = record { kept = λ a e. inl e }

Annotates-append : (h fresh : Heap) → Annotates h (h ++ fresh)
Annotates-append h fresh = record { kept = λ a e. inl (get_elem?-append_left h fresh a e) }

-- An object that has gained "parsed" does not gain it again.
Annotates-trans : {h1 h2 h3 : Heap} → Annotates h1 h2 → Annotates h2 h3 → Annotates h1 h3
Annotates-trans {h1} {h2} {h3} p q = record {
  kept = λ a e. elim (p.kept a e) [
    | inl e' ↦ q.kept a e'
    | inr (m, v, eo, no_parsed, e') ↦ elim (q.kept a e') [
      | inl e'' ↦ inr (m, v, eo, no_parsed, e'')
      | inr (m', v', eo', no_parsed', e'') ↦
          absurd (cc (lookup-insert_self "parsed" v m, eo', no_parsed'))
    ]
  ];
}

Annotates-set :
    (h : Heap) (a : ℕ) (m : Map Value) (p : Value)
    → get_elem? h a ≡ some (entries m)
    → lookup "parsed" m ≡ none
    → Annotates h (set h a (entries (insert "parsed" p m)))
Annotates-set h a m p here fresh = record {
  kept = λ b e. elim (Bool-cases (a == b)) [
    | inl same ↦
        let e' : a ≡ b = ground arith in
        let o : _ ≡ entries m = ground arith in
        inr (m, p, o, fresh, rw (← e') (get_elem?-set_self h a _ here))
    | inr other ↦ inl (rw (get_elem?-set_ne h a b _ (ground arith)) e)
  ];
}

put_parsed-Annotates :
    (h : Heap) (item p : Value)
    → field h item "parsed" ≡ none
    → Annotates h (put_key h item "parsed" p)
unfolding field put_key
put_parsed-Annotates h (obj a) p e = elim (Option-cases (as_map h (obj a))) [
  | inl n ↦ rw (n, put_key) (Annotates-refl h)
  | inr (m, y) ↦ rw (y, put_key) (Annotates-set h a m p (object_of_as_map h a y) (ground arith))
]
put_parsed-Annotates h _ p e = Annotates-refl h

note_parsed-Annotates :
    (json : Codec) (h : Heap) (item : Value) (p : Option Value)
    → Annotates h (note_parsed json h item p)
unfolding note_parsed
note_parsed-Annotates json h item none = Annotates-refl h
note_parsed-Annotates json h item (some p) = elim (Option-cases (field h item "parsed")) [
  | inl e ↦ rw (e, note_parsed) (put_parsed-Annotates h item p e)
  | inr (old, e) ↦ rw (e, note_parsed) (Annotates-refl h)
]

module _ (json : Codec) where
  allocated-Annotates : (h : Heap) (d : Option Decoded) → Annotates h (allocated json h d).1
  unfolding alloc
  allocated-Annotates h none = Annotates-refl h
  allocated-Annotates h (some d) = Annotates-append h _

  parse_text_field-Annotates : (h : Heap) (v : Value) → Annotates h (parse_text_field json h v).1
  unfolding parse_text_field
  parse_text_field-Annotates h v = elim (Option-cases (text_field h v "text")) [
    | inl e ↦ rw (e, parse_text_field) (Annotates-refl h)
    | inr (t, e) ↦ rw (e, parse_text_field) (allocated-Annotates h (parse_json_text json t))
  ]

  parse_items-Annotates :
      (parsed : List Value) (h : Heap) (items : List Value)
      → Annotates h (parse_items json parsed h items).1
  unfolding parse_items
  parse_items-Annotates parsed h [] = Annotates-refl h
  parse_items-Annotates parsed h (item ∷ items) =
      let (p, h1) = parse_text_field json h item in
      Annotates-trans (parse_text_field-Annotates h item) (
        Annotates-trans (note_parsed-Annotates json h1 item p)
          (parse_items-Annotates (append_some json parsed p) (note_parsed json h1 item p) items))

  collect_items-Annotates : (ps : List Value) (h : Heap) → Annotates h (collect_items json ps h).1
  unfolding collect_items
  collect_items-Annotates [] h = Annotates-refl h
  collect_items-Annotates (p ∷ []) h = Annotates-refl h
  collect_items-Annotates (p ∷ q ∷ ps) h = Annotates-append h _

  parse_data_item_json-Annotates :
      (h : Heap) (v : Value) → Annotates h (parse_data_item_json json h v).1
  unfolding parse_data_item_json
  parse_data_item_json-Annotates h v = elim (Option-cases (as_list h (or_nil (field h v "data")))) [
    | inl e ↦ rw (e, parse_data_item_json) (Annotates-refl h)
    | inr (items, e) ↦
        let (parsed, h1) = parse_items json [] h items in
        rw (e, parse_data_item_json)
          (Annotates-trans (parse_items-Annotates [] h items) (collect_items-Annotates parsed h1))
  ]

  parse_content_map-Annotates : (h : Heap) (v : Value) → Annotates h (parse_content_map json h v).1
  unfolding parse_content_map
  parse_content_map-Annotates h v =
      let (parsed, h1) = parse_data_item_json json h v in
      let first = parse_data_item_json-Annotates h v in
      elim (Bool-cases (is_nil parsed)) [
        | inl b ↦ rw b (Annotates-trans first (parse_text_field-Annotates h1 v))
        | inr b ↦ rw b first
      ]

  parse_content_item-Annotates :
      (h : Heap) (v : Value) → Annotates h (parse_content_item json h v).1
  unfolding parse_content_item
  parse_content_item-Annotates h v = elim (Option-cases (as_map h v)) [
    | inl e ↦ rw (e, parse_content_item) (Annotates-refl h)
    | inr (m, e) ↦ rw (e, parse_content_item) (parse_content_map-Annotates h v)
  ]

  parse_content_list-Annotates :
      (h : Heap) (items : List Value) → Annotates h (parse_content_list json h items).1
  unfolding parse_content_list
  parse_content_list-Annotates h [] = Annotates-refl h
  parse_content_list-Annotates h (item ∷ items) =
      let (p, h1) = parse_content_item json h item in
      let here = parse_content_item-Annotates h item in
      elim (Option-cases p) [
        | inl e ↦
            rw (e, parse_content_list)
              (Annotates-trans here (parse_content_list-Annotates h1 items))
        | inr (q, e) ↦ rw (e, parse_content_list) here
      ]

  parse_content-Annotates : (h : Heap) (v : Value) → Annotates h (parse_content json h v).1
  unfolding parse_content
  parse_content-Annotates h v = elim (Option-cases (as_map h v)) [
    | inr (m, e) ↦ rw (e, parse_content) (parse_content_map-Annotates h v)
    | inl e ↦ elim (Option-cases (as_list h v)) [
      | inl e' ↦ rw (e, e', parse_content) (Annotates-refl h)
      | inr (items, e') ↦ rw (e, e', parse_content) (parse_content_list-Annotates h items)
    ]
  ]

  parse_jsonrpc_content-Annotates :
      (h : Heap) (v : Value) → Annotates h (parse_jsonrpc_content json h v).1
  unfolding parse_jsonrpc_content
  parse_jsonrpc_content-Annotates h v =
      elim (Option-cases (field h (or_nil (field h v "result")) "content")) [
        | inl e ↦ rw (e, parse_jsonrpc_content) (Annotates-refl h)
        | inr (content, e) ↦ rw (e, parse_jsonrpc_content) (parse_content-Annotates h content)
      ]

  normalize_text-Annotates : (h : Heap) (v : Value) → Annotates h (normalize_text json h v).1
  unfolding normalize_text
  normalize_text-Annotates h v =
      let (p, h1) = parse_text_field json h v in
      let here = parse_text_field-Annotates h v in
      elim (Option-cases p) [
        | inl e ↦
            rw (e, normalize_text) (Annotates-trans here (parse_jsonrpc_content-Annotates h1 v))
        | inr (q, e) ↦ rw (e, normalize_text) here
      ]

  normalize_map-Annotates : (h : Heap) (v : Value) → Annotates h (normalize_map json h v).1
  unfolding normalize_map
  normalize_map-Annotates h v =
      let (parsed, h1) = parse_data_item_json json h v in
      let here = parse_data_item_json-Annotates h v in
      elim (Bool-cases (is_nil parsed)) [
        | inl b ↦ rw b (Annotates-trans here (normalize_text-Annotates h1 v))
        | inr b ↦ rw b here
      ]

  -- Normalising a result leaves every object that there was as it was, save that a map which had no
  -- key "parsed" may have gained one: no other key and no list changes, and no "parsed" that was
  -- there is overwritten.
  pub normalize_mcp_result-Annotates :
      (h : Heap) (v : Value) → Annotates h (normalize_mcp_result json h v).1
  unfolding normalize_mcp_result
  normalize_mcp_result-Annotates h (obj a) = normalize_map-Annotates h (obj a)
  normalize_mcp_result-Annotates h (str s) = allocated-Annotates h (parse_json_text json s)
  normalize_mcp_result-Annotates h _ = Annotates-refl h
