-- ===== src/Tests/Selection.antt =====
-- The selection of pkg/adapter/selection.go on a payload with two entries.
use mcp_adapter_engram.Base.{◌≡◌, ◌↔◌, false, some, [], ◌∷◌, Map, ok}
use mcp_adapter_engram.Heap.{Value, str, list, obj, elems, entries, Heap}
use mcp_adapter_engram.Adapter.Selection.{Format, select_from_parsed, Selection}
use mcp_adapter_engram.Adapter.Selection.Matching.{IsSelection, select_from_parsed_iff}

-- {"items": [{"name": "a"}, {"name": "b", "url": "u"}]}
abbrev payload : Heap
payload =
    entries (("items", list 1) ∷ [])
    ∷ elems (obj 2 ∷ obj 3 ∷ [])
    ∷ entries (("name", str "a") ∷ [])
    ∷ entries (("name", str "b") ∷ ("url", str "u") ∷ [])
    ∷ []

abbrev format : Format
format = record { sprint = λ h v. ""; quote = λ text. text }

abbrev by_name : Selection
by_name = record {
  items_path = " items";
  match_field = "name";
  match_value = "b";
  value_path = "url";
  output_key = "";
  include_item = false;
}

abbrev chosen : Map Value
chosen = ("value", str "u") ∷ []

select_from_parsed_iff_example :
    (select_from_parsed format payload (obj 0) (some by_name) ≡ ok (some chosen))
    ↔ IsSelection format payload (obj 0) by_name chosen
select_from_parsed_iff_example = select_from_parsed_iff format payload (obj 0) by_name chosen
