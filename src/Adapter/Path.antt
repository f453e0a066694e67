-- ===== src/Adapter/Path.antt =====
-- pkg/adapter/pagination.go: the paths by which a payload is read and written.
pub mod Parsing
pub mod Reading
pub mod Frame
pub mod Writing
use Prim.Native.Char.{Char, code}
use Prim.Native.String.{[], ◌∷◌}
use mathlib.Core.List.{[], ◌∷◌}
use mcp_adapter_engram.Base.{
  ℕ, zero, suc, String, ◌<>◌, Bool, true, false, Option, none, some, List, ◌++◌, ◌==◌,
  if◌then◌else◌, get_elem?, set, Map, lookup, insert, ℤ, pos, negsuc, Result, ok, err, Error,
  message, eof, ◌>>=◌,
}
use mcp_adapter_engram.Text.{is_empty, cut, split, atoi}
use mcp_adapter_engram.Heap.{Value, list, obj, entries, elems, Heap, as_map, as_list, as_string}

pub record PathToken : Type 0 where
  pub key : String
  pub index : Option ℤ

abbrev pub key_token : String → PathToken
key_token key = record { key = key; index = none }

abbrev pub index_token : ℤ → PathToken
index_token i = record { key = ""; index = some i }

abbrev after_char : Char → Option (String × String) → Option (String × String)
after_char c none = none
after_char c (some (before, from)) = some (c ∷ before, from)

-- `seg[:idx]` and `seg[idx:]` for `idx := strings.Index(seg, sep)`, where that is not -1
unfoldable pub cut_at : ℕ → String → Option (String × String)
cut_at sep [] = none
cut_at sep (c ∷ s) = if code c == sep then some ([], c ∷ s) else after_char c (cut_at sep s)

-- One round of the loop `for seg != ""`, on a segment that begins with the character `c`: the
-- token and what is left of the segment.
unfoldable pub take_token : String → Char → String → Result (PathToken × String)
take_token path c s =
    if code c == b'['
    then elim (cut b']' s) [
      | none ↦ err (message ("invalid path: " <> path))
      | some (inner, rest) ↦ elim (atoi inner) [
        | none ↦ err (message ("invalid index in path: " <> path))
        | some i ↦ ok (index_token i, rest)
      ]
    ]
    else elim (cut_at b'[' s) [
      | none ↦ ok (key_token (c ∷ s), [])
      | some (before, rest) ↦ ok (key_token (c ∷ before), rest)
    ]

abbrev prepend : PathToken → Result (List PathToken) → Result (List PathToken)
prepend t (ok ts) = ok (t ∷ ts)
prepend t (err e) = err e

-- The loop. Each round takes at least one character, so the size of the segment is fuel enough.
unfoldable pub parse_segment : ℕ → String → String → Result (List PathToken)
parse_segment fuel path [] = ok []
parse_segment zero path (c ∷ s) = err eof
parse_segment (suc fuel) path (c ∷ s) = elim (take_token path c s) [
  | err e ↦ err e
  | ok (t, rest) ↦ prepend t (parse_segment fuel path rest)
]

-- The characters of a text.
unfoldable pub size : String → ℕ
size [] = 0
size (c ∷ s) = suc (size s)

-- The loop over the segments; an empty segment gives no token.
unfoldable pub parse_segments : String → List String → Result (List PathToken)
parse_segments path [] = ok []
parse_segments path (seg ∷ segs) = do
  ts ← parse_segment (size seg) path seg
  rest ← parse_segments path segs
  ok (ts ++ rest)

unfoldable pub parse_path : String → Result (List PathToken)
parse_path path = parse_segments path (split b'.' path)

-- `arr[idx]` after the test `idx < 0 || idx >= len(arr)`
unfoldable pub element : List Value → ℤ → Option Value
element xs (pos i) = get_elem? xs i
element xs (negsuc i) = none

-- The `if tok.key != ""` part of a round.
unfoldable pub step_key : Heap → Value → String → Option Value
step_key h current key =
    if is_empty key
    then some current
    else elim (as_map h current) [ none ↦ none | some m ↦ lookup key m ]

-- The `if tok.index != nil` part of a round.
unfoldable pub step_index : Heap → Value → Option ℤ → Option Value
unfolding element
step_index h current none = some current
step_index h current (some i) = elim (as_list h current) [ none ↦ none | some xs ↦ element xs i ]

abbrev step_then : Heap → Option ℤ → Option Value → Option Value
step_then h i none = none
step_then h i (some v) = step_index h v i

-- One round of the loop of `getPath`.
unfoldable pub get_step : Heap → Value → PathToken → Option Value
unfolding step_key step_index
get_step h current tok = step_then h tok.index (step_key h current tok.key)

unfoldable pub get_tokens : Heap → Value → List PathToken → Option Value
get_tokens h current [] = some current
get_tokens h current (tok ∷ toks) = elim (get_step h current tok) [
  | none ↦ none
  | some next ↦ get_tokens h next toks
]

unfoldable pub get_path : Heap → Value → String → Option Value
get_path h root path =
    if is_empty path
    then some root
    else elim (parse_path path) [ err e ↦ none | ok toks ↦ get_tokens h root toks ]

-- `getStringPath`: "" where there is no such value or it is no string
unfoldable pub get_string_path : Heap → Value → String → String
get_string_path h root path = elim (get_path h root path) [
  | none ↦ ""
  | some v ↦ elim (as_string v) [ none ↦ "" | some s ↦ s ]
]

unfoldable pub descend : Heap → Value → PathToken → Option Value
unfolding element
descend h current tok = elim (is_empty tok.key) [
  | true ↦ elim tok.index [
    | none ↦ some current
    | some i ↦ elim (as_list h current) [ none ↦ none | some xs ↦ element xs i ]
  ]
  | false ↦ elim (as_map h current) [
    | none ↦ none
    | some m ↦ elim (lookup tok.key m) [
      | none ↦ none
      | some child ↦ elim tok.index [
        | none ↦ some child
        | some i ↦ elim (as_list h child) [ none ↦ none | some xs ↦ element xs i ]
      ]
    ]
  ]
]

unfoldable pub walk_to_parent : Heap → Value → List PathToken → Option Value
walk_to_parent h current [] = some current
walk_to_parent h current (tok ∷ toks) = elim (descend h current tok) [
  | none ↦ none
  | some next ↦ walk_to_parent h next toks
]

-- `m[key] = value` on the map at an address
unfoldable pub put_key : Heap → Value → String → Value → Heap
put_key h (obj a) key value = elim (as_map h (obj a)) [
  | none ↦ h
  | some m ↦ set h a (entries (insert key value m))
]
put_key h _ key value = h

-- `arr[idx] = value`, in range, on the slice at an address
unfoldable pub put_index : Heap → Value → ℤ → Value → Heap
put_index h (list a) (pos i) value = elim (as_list h (list a)) [
  | none ↦ h
  | some xs ↦ set h a (elems (set xs i value))
]
put_index h _ _ value = h

unfoldable pub set_final_token : Heap → Value → PathToken → Value → Heap
set_final_token h current tok value =
    if is_empty tok.key
    then elim tok.index [ none ↦ h | some i ↦ put_index h current i value ]
    else put_key h current tok.key value

-- `tokens[:len(tokens)-1]` and `tokens[len(tokens)-1]`
unfoldable pub split_last : PathToken → List PathToken → List PathToken × PathToken
split_last t [] = ([], t)
split_last t (u ∷ us) = let (front, last) = split_last u us in (t ∷ front, last)

unfoldable pub set_tokens : Heap → Value → List PathToken → Value → Heap
set_tokens h root [] value = h
set_tokens h root (t ∷ ts) value =
    let (front, last) = split_last t ts in
    elim (walk_to_parent h root front) [
      | none ↦ h
      | some parent ↦ set_final_token h parent last value
    ]

unfoldable pub set_path : Heap → Value → String → Value → Heap
set_path h root path value =
    if is_empty path
    then h
    else elim (parse_path path) [ err e ↦ h | ok toks ↦ set_tokens h root toks value ]

-- For tests: all that the two functions on paths compute with.
unfoldable pub path_functions : Unit {0}
unfolding parse_path parse_segments parse_segment take_token cut_at size split cut atoi get_path
    get_tokens get_step get_string_path as_string as_map as_list walk_to_parent descend element
    set_path set_tokens set_final_token put_key put_index split_last lookup insert
path_functions = tt
