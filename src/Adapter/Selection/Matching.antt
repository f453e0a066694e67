-- ===== src/Adapter/Selection/Matching.antt =====
-- Which entry `selectFromParsed` of pkg/adapter/selection.go chooses.
use mcp_adapter_engram.Base.{
  String, ◌≡◌, refl, sym, ap, ◌∙◌, ◌⊎◌, inl, inr, true, false, some, List, [], ◌∷◌, ◌++◌, Map, ok,
  ◌↔◌, Result-cases, arith, Bool-cases, Option-cases, All,
}
use mcp_adapter_engram.Text.{is_empty, trim_space}
use mcp_adapter_engram.Heap.{Value, Heap, as_map, as_list}
use mcp_adapter_engram.Adapter.Path.{get_path}
use mcp_adapter_engram.Adapter.Selection.{
  find_item, Format, item_matches, output, select, select_from_parsed, Selection, values_equal,
}

module _ (fmt : Format) (h : Heap) where
  -- A map that has the value at the field, where a field is given.
  abbrev pub IsMatch : String → String → Value → Type 0
  IsMatch field expected item =
      (entry : Map Value) × (as_map h item ≡ some entry)
      × ((is_empty field ≡ true)
          ⊎ ((v : Value) × (get_path h item field ≡ some v)
              × (values_equal fmt h v expected ≡ true)))

  item_matches_sound :
      (field expected : String) (item : Value)
      → item_matches fmt h field expected item ≡ true
      → IsMatch field expected item
  unfolding item_matches
  item_matches_sound field expected item e = elim (Option-cases (as_map h item)) [
    | inl f ↦ absurd (ground arith)
    | inr (entry, f) ↦ elim (Bool-cases (is_empty field)) [
      | inl y ↦ (entry, f, inl y)
      | inr n ↦ elim (Option-cases (get_path h item field)) [
        | inl g ↦ absurd (ground arith)
        | inr (v, g) ↦ (entry, f, inr (v, g, ground arith))
      ]
    ]
  ]

  item_matches_complete :
      (field expected : String) (item : Value)
      → IsMatch field expected item
      → item_matches fmt h field expected item ≡ true
  unfolding item_matches
  item_matches_complete field expected item (entry, f, inl y) = rw (f, y) refl
  item_matches_complete field expected item (entry, f, inr (v, g, e)) =
      elim (Bool-cases (is_empty field)) [ inl y ↦ rw (f, y) refl | inr n ↦ rw (f, n, g) e ]

  -- The first match of a list.
  pub record IsFirst (field expected : String) (items : List Value) (item : Value) : Type 0 where
    pub before : List Value
    pub after : List Value
    pub split : items ≡ before ++ item ∷ after
    pub none_before : All (λ x. IsMatch field expected x → ⊥) before
    pub matches : IsMatch field expected item

  find_item_sound :
      (field expected : String) (items : List Value) (item : Value)
      → find_item fmt h field expected items ≡ some item
      → IsFirst field expected items item
  unfolding find_item
  find_item_sound field expected [] item e = absurd (ground arith)
  find_item_sound field expected (x ∷ items) item e =
      elim (Bool-cases (item_matches fmt h field expected x)) [
        | inl y ↦
            let same : x ≡ item = ground arith in
            record {
              before = [];
              after = items;
              split = ap (λ v. v ∷ items) same;
              none_before = tt;
              matches =
                  item_matches_sound field expected item
                    (ap (item_matches fmt h field expected) (sym same) ∙ y);
            }
        | inr n ↦
            let rest : find_item fmt h field expected items ≡ some item = ground arith in
            let f = find_item_sound field expected items item rest in
            record {
              before = x ∷ f.before;
              after = f.after;
              split = ap (λ l. x ∷ l) f.split;
              none_before = (
                (λ m. let y = item_matches_complete field expected x m in ground arith),
                f.none_before,
              );
              matches = f.matches;
            }
      ]

  find_first :
      (field expected : String) (before after : List Value) (item : Value)
      → All (λ x. IsMatch field expected x → ⊥) before
      → IsMatch field expected item
      → find_item fmt h field expected (before ++ item ∷ after) ≡ some item
  unfolding find_item
  find_first field expected [] after item q m =
      rw (item_matches_complete field expected item m) refl
  find_first field expected (x ∷ before) after item q m =
      elim (Bool-cases (item_matches fmt h field expected x)) [
        | inl y ↦ absurd (q.0 (item_matches_sound field expected x y))
        | inr n ↦ rw (n, find_item) (find_first field expected before after item q.1 m)
      ]

  -- What a selection of a payload is: of the list at the path the first match, and of this the value
  -- at its path, or the whole where no path is given.
  pub record IsSelection (parsed : Value) (sel : Selection) (out : Map Value) : Type 0 where
    pub raw : Value
    pub items : List Value
    pub matched : Value
    pub value : Value
    pub has_path : is_empty (trim_space sel.items_path) ≡ false
    pub at_path : get_path h parsed (trim_space sel.items_path) ≡ some raw
    pub is_list : as_list h raw ≡ some items
    pub is_first : IsFirst (trim_space sel.match_field) sel.match_value items matched
    pub is_value :
        ((is_empty (trim_space sel.value_path) ≡ true) × (value ≡ matched))
        ⊎ ((is_empty (trim_space sel.value_path) ≡ false)
            × (get_path h matched sel.value_path ≡ some value))
    pub is_output : out ≡ output fmt h sel matched value

  select-IsSelection :
      (parsed : Value) (sel : Selection) (out : Map Value)
      → select fmt h parsed sel ≡ ok out
      → IsSelection parsed sel out
  unfolding select
  select-IsSelection parsed sel out e = elim (Bool-cases (is_empty (trim_space sel.items_path))) [
    | inl y ↦ absurd (ground arith)
    | inr n ↦ elim (Option-cases (get_path h parsed (trim_space sel.items_path))) [
      | inl f ↦ absurd (ground arith)
      | inr (raw, f) ↦ elim (Option-cases (as_list h raw)) [
        | inl g ↦ absurd (ground arith)
        | inr (items, g) ↦
            elim (Option-cases
              (find_item fmt h (trim_space sel.match_field) sel.match_value items)) [
                | inl m ↦ absurd (ground arith)
                | inr (matched, m) ↦
                    let first =
                      find_item_sound (trim_space sel.match_field) sel.match_value items matched
                        m in
                    elim (Bool-cases (is_empty (trim_space sel.value_path))) [
                      | inl y ↦ record {
                        raw = raw;
                        items = items;
                        matched = matched;
                        value = matched;
                        has_path = n;
                        at_path = f;
                        is_list = g;
                        is_first = first;
                        is_value = inl (y, refl);
                        is_output = ground arith;
                      }
                      | inr k ↦ elim (Option-cases (get_path h matched sel.value_path)) [
                        | inl w ↦ absurd (ground arith)
                        | inr (v, w) ↦ record {
                          raw = raw;
                          items = items;
                          matched = matched;
                          value = v;
                          has_path = n;
                          at_path = f;
                          is_list = g;
                          is_first = first;
                          is_value = inr (k, w);
                          is_output = ground arith;
                        }
                      ]
                    ]
              ]
      ]
    ]
  ]

  IsSelection-select :
      (parsed : Value) (sel : Selection) (out : Map Value)
      → IsSelection parsed sel out
      → select fmt h parsed sel ≡ ok out
  unfolding select
  IsSelection-select parsed sel out s =
      let found : find_item fmt h (trim_space sel.match_field) sel.match_value s.items
          ≡ some s.matched =
        rw s.is_first.split (
          find_first _ _ s.is_first.before s.is_first.after s.matched s.is_first.none_before
            s.is_first.matches) in
      elim s.is_value [
        | inl (y, same) ↦
            rw (s.has_path, s.at_path, s.is_list, found, y)
              (ap ok (sym (s.is_output ∙ ap (output fmt h sel s.matched) same)))
        | inr (k, w) ↦ rw (s.has_path, s.at_path, s.is_list, found, k, w) (ap ok (sym s.is_output))
      ]

  -- A selection succeeds exactly where there is a list at its path with an entry that matches, and a
  -- value at the entry's path, if one is given; what it returns is made of the first such entry and
  -- of that value.
  pub select_from_parsed_iff :
      (parsed : Value) (sel : Selection) (out : Map Value)
      → (select_from_parsed fmt h parsed (some sel) ≡ ok (some out)) ↔ IsSelection parsed sel out
  unfolding select_from_parsed
  select_from_parsed_iff parsed sel out = (
    (λ e. select-IsSelection parsed sel out (elim (Result-cases (select fmt h parsed sel)) [
      | inl (out', f) ↦ let same : out' ≡ out = ground arith in f ∙ ap ok same
      | inr (x, f) ↦ absurd (ground arith)
    ])),
    λ s. rw (IsSelection-select parsed sel out s) refl,
  )
