-- ===== src/Tests/Path.antt =====
-- The paths of adapter/pagination.go at a concrete payload.
use mcp_adapter_engram.Base.{◌≡◌, ◌≢◌, refl, arith, some, List, [], ◌∷◌, pos, ok, err, eof, All}
use mcp_adapter_engram.Heap.{str, num, int, list, obj, elems, entries, Heap}
use mcp_adapter_engram.Adapter.Path.{
  PathToken, key_token, index_token, get_path, get_tokens, parse_path, path_functions, set_path,
  walk_to_parent,
}
use mcp_adapter_engram.Adapter.Path.Parsing.{IsSimple, parse_path-IsSimple, parse_path-ne-eof}
use mcp_adapter_engram.Adapter.Path.Reading.{walk_to_parent-eq-get_tokens}
use mcp_adapter_engram.Adapter.Path.Frame.{ChangesOne, set_path-ChangesOne}
use mcp_adapter_engram.Adapter.Path.Writing.{Avoids, get_path-set_path}

-- {"data": [{"id": 7}]}
abbrev payload : Heap
payload =
    entries (("data", list 1) ∷ [])
    ∷ elems (obj 2 ∷ [])
    ∷ entries (("id", num (int (pos 7))) ∷ [])
    ∷ []

abbrev data_0 : List PathToken
data_0 = index_token (pos 0) ∷ []

parsed : parse_path "data[0].id" ≡ ok (key_token "data" ∷ index_token (pos 0) ∷ key_token "id" ∷ [])
unfolding path_functions
parsed = refl

read : get_path payload (obj 0) "data[0].id" ≡ some (num (int (pos 7)))
unfolding path_functions
read = refl

to_parent : get_tokens payload (obj 0) (key_token "data" ∷ index_token (pos 0) ∷ []) ≡ some (obj 2)
unfolding path_functions
to_parent = refl

avoids : Avoids payload (obj 2) (obj 0) (key_token "data" ∷ index_token (pos 0) ∷ [])
unfolding path_functions
avoids = (λ a e f. ground arith, λ next e. (λ a e' f. ground arith, λ last e'. tt))

parse_path-IsSimple_example :
    All IsSimple (key_token "data" ∷ index_token (pos 0) ∷ key_token "id" ∷ [])
parse_path-IsSimple_example = parse_path-IsSimple "data[0].id" parsed

parse_path-ne-eof_example : parse_path "data[0].id" ≢ err eof
parse_path-ne-eof_example = parse_path-ne-eof "data[0].id"

walk_to_parent-eq-get_tokens_example :
    walk_to_parent payload (obj 0) data_0 ≡ get_tokens payload (obj 0) data_0
walk_to_parent-eq-get_tokens_example = walk_to_parent-eq-get_tokens payload (obj 0) data_0

set_path-ChangesOne_example : ChangesOne payload (set_path payload (obj 0) "data[0].id" (str "x"))
set_path-ChangesOne_example = set_path-ChangesOne payload (obj 0) "data[0].id" (str "x")

get_path-set_path_example :
    get_path (set_path payload (obj 0) "data[0].id" (str "x")) (obj 0) "data[0].id" ≡ some (str "x")
unfolding path_functions
get_path-set_path_example =
    get_path-set_path payload (obj 0) (obj 2) (str "x") "data[0].id" (key_token "data")
      (index_token (pos 0) ∷ key_token "id" ∷ []) parsed to_parent read avoids
