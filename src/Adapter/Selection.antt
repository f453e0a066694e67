-- ===== src/Adapter/Selection.antt =====
-- pkg/adapter/selection.go: the choice of one entry of a parsed payload.
pub mod Matching
use text.Mathlib.Text.{◌==◌ as str_eq}
use mcp_adapter_engram.Base.{
  String, ◌<>◌, Bool, true, false, Option, none, some, List, [], ◌∷◌, if◌then◌else◌, Map, insert,
  Result, ok, err, Error, message,
}
use mcp_adapter_engram.Text.{is_empty, trim_space}
use mcp_adapter_engram.Heap.{Value, num, str, obj, json_number, Heap, as_map, as_list}
use mcp_adapter_engram.Adapter.Path.{get_path}

pub record Selection : Type 0 where
  pub items_path : String
  pub match_field : String
  pub match_value : String
  pub value_path : String
  pub output_key : String
  pub include_item : Bool

-- fmt: `fmt.Sprint` of a value, and the verb `%q`
pub record Format : Type 0 where
  pub sprint : Heap → Value → String
  pub quote : String → String

module _ (fmt : Format) (h : Heap) where
  -- Of the values of a payload only a `json.Number` is a `fmt.Stringer`.
  unfoldable pub values_equal : Value → String → Bool
  values_equal (str s) expected = str_eq s expected
  values_equal (num (json_number s)) expected = str_eq s expected
  values_equal v expected = str_eq (fmt.sprint h v) expected

  abbrev value_matches : String → Option Value → Bool
  value_matches expected none = false
  value_matches expected (some v) = values_equal v expected

  -- The tests of an item that is a map.
  abbrev entry_matches : String → String → Value → Option (Map Value) → Bool
  entry_matches field expected item none = false
  entry_matches field expected item (some entry) =
      if is_empty field then true else value_matches expected (get_path h item field)

  unfoldable pub item_matches : String → String → Value → Bool
  item_matches field expected item = entry_matches field expected item (as_map h item)

  -- The loop, with the item that is matched.
  unfoldable pub find_item : String → String → List Value → Option Value
  find_item field expected [] = none
  find_item field expected (item ∷ items) =
      if item_matches field expected item then some item else find_item field expected items

  abbrev or_value : String → String
  or_value key = if is_empty key then "value" else key

  -- The map that is returned.
  unfoldable pub output : Selection → Value → Value → Map Value
  output sel matched selected =
      let out = (or_value (trim_space sel.output_key), selected) ∷ [] in
      if sel.include_item then insert "item" matched out else out

  abbrev value_at : Selection → Value → Option Value → Result (Map Value)
  value_at sel matched none = err (message ("select valuePath not found: " <> sel.value_path))
  value_at sel matched (some v) = ok (output sel matched v)

  abbrev selected : Selection → Option Value → Result (Map Value)
  selected sel none = err (
      message (
        "select no match for "
        <> (trim_space sel.match_field <> ("=" <> fmt.quote sel.match_value))))
  selected sel (some matched) =
      if is_empty (trim_space sel.value_path)
      then ok (output sel matched matched)
      else value_at sel matched (get_path h matched sel.value_path)

  abbrev items_of : Selection → String → Option (List Value) → Result (Map Value)
  items_of sel path none = err (message ("select itemsPath is not a list: " <> path))
  items_of sel path (some items) =
      selected sel (find_item (trim_space sel.match_field) sel.match_value items)

  abbrev raw_items : Selection → String → Option Value → Result (Map Value)
  raw_items sel path none = err (message ("select itemsPath not found: " <> path))
  raw_items sel path (some raw) = items_of sel path (as_list h raw)

  unfoldable pub select : Value → Selection → Result (Map Value)
  select parsed sel =
      let path = trim_space sel.items_path in
      if is_empty path
      then err (message "select requires itemsPath")
      else raw_items sel path (get_path h parsed path)

  abbrev some_of : Result (Map Value) → Result (Option (Map Value))
  some_of (ok out) = ok (some out)
  some_of (err e) = err e

  unfoldable pub select_from_parsed : Value → Option Selection → Result (Option (Map Value))
  select_from_parsed parsed none = ok none
  select_from_parsed parsed (some sel) = some_of (select parsed sel)
