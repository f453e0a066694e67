-- ===== src/Adapter/Paginate.antt =====
-- pkg/adapter/pagination.go: following the cursor of a paged tool result.
pub mod Bounds
pub mod Pages
use mcp_adapter_engram.Base.{
  ℕ, zero, suc, ◌-◌, String, ◌<>◌, Bool, true, false, ◌||◌, ◌&&◌, not, Option, none, some, List, [],
  ◌∷◌, ◌++◌, if◌then◌else◌, length, Map, insert, ℤ, pos, leb_ℤ, pos_part, Result, ok, err, Error,
  message, eof, error_text, invalid_action,
}
use text.Mathlib.Text.{◌==◌ as str_eq}
use mcp_adapter_engram.Base.Exec.{Exec, pure, raise, ◌>>=◌}
use mcp_adapter_engram.Text.{is_empty, trim_space}
use mcp_adapter_engram.Heap.{Value, nil, str, list, Heap, elems, as_list}
use mcp_adapter_engram.Json.{Codec}
use mcp_adapter_engram.Mcp.Client.{Client, World, receive}
use mcp_adapter_engram.Adapter.Inputs.{Inputs, Pagination}
use mcp_adapter_engram.Adapter.Path.{get_path, get_string_path, set_path}
use mcp_adapter_engram.Adapter.Normalize.{
  is_nil, normalize_mcp_result, update_normalized_with_parsed,
}

-- The four results of `paginationConfig`.
pub record Paging : Type 0 where
  pub cursor_param : String
  pub cursor_path : String
  pub items_path : String
  pub max_pages : ℤ

unfoldable pub pagination_config : Pagination → Result Paging
pagination_config cfg =
    let cursor_param = trim_space cfg.cursor_param in
    let cursor_path = trim_space cfg.cursor_path in
    let items_path = trim_space cfg.items_path in
    if is_empty cursor_param || is_empty cursor_path || is_empty items_path
    then err (message "pagination requires cursorParam, cursorPath, and itemsPath")
    else ok (record {
      cursor_param = cursor_param;
      cursor_path = cursor_path;
      items_path = items_path;
      max_pages = if leb_ℤ cfg.max_pages (pos 0) then pos 5 else cfg.max_pages;
    })

-- The items and the cursor of the first page.
unfoldable pub pagination_state : Heap → Value → Paging → Result (List Value × String)
pagination_state h parsed p = elim (get_path h parsed p.items_path) [
  | none ↦ err (message ("pagination itemsPath not found: " <> p.items_path))
  | some raw ↦ elim (as_list h raw) [
    | none ↦ err (message ("pagination itemsPath is not a list: " <> p.items_path))
    | some items ↦ ok (items, get_string_path h parsed p.cursor_path)
  ]
]

-- What one further page brings: items and a cursor, or the end.
pub data Page : Type 0 where
  stop : Page
  page : List Value → String → Page

-- The items and the cursor of a further page; none where it has no list at the path.
unfoldable pub read_page : Heap → Value → Paging → Page
read_page h parsed p = elim (get_path h parsed p.items_path) [
  | none ↦ stop
  | some raw ↦ elim (as_list h raw) [
    | none ↦ stop
    | some items ↦ page items (get_string_path h parsed p.cursor_path)
  ]
]

-- Lifts a result into code over a state.
abbrev lift {ℓ} : {S A : Type ℓ} → Result A → Exec S A
lift r s = (r, s)

-- The pages after the first that the configuration allows.
abbrev pub further : Paging → ℕ
further p = pos_part p.max_pages - 1

-- The two calls of `setPath`. The items are a new slice.
unfoldable pub write_back : Paging → Value → List Value → String → Heap → Heap
write_back p parsed items cursor h =
    let h1 = set_path (h ++ elems items ∷ []) parsed p.items_path (list (length h)) in
    if not (is_empty cursor) || not (is_empty p.cursor_path)
    then set_path h1 parsed p.cursor_path (str cursor)
    else h1

module _ (c : Client) (json : Codec) (input : Inputs) where
  abbrev wrap_error : Result Value × World c.State → Result Value × World c.State
  wrap_error (ok v, w) = (ok v, w)
  wrap_error (err e, w) = (err (message ("pagination callTool failed: " <> error_text e)), w)

  -- The call for the page at a cursor, `cloneAnyMap(in.Arguments)` with the cursor added.
  unfoldable pub call_page : Paging → String → Exec (World c.State) Value
  call_page p cursor w =
      let args = insert p.cursor_param (str cursor) input.arguments in
      wrap_error (receive w.heap (c.call_tool w.heap input.tool args w.remote))

  -- Normalising in place; the value is what was parsed.
  unfoldable pub normalize : Value → Exec (World c.State) Value
  normalize v w =
      let (parsed, h) = normalize_mcp_result json w.heap v in (ok parsed, record w { heap = h })

  unfoldable pub page_of : Paging → Value → Exec (World c.State) Page
  page_of p parsed w =
      if is_nil parsed
      then (err (message "pagination result not parseable"), w)
      else (ok (read_page w.heap parsed p), w)

  unfoldable pub fetch_pagination_page : Paging → String → Exec (World c.State) Page
  fetch_pagination_page p cursor = do
    result ← call_page p cursor
    parsed ← normalize result
    page_of p parsed

  -- What follows a page: the end, or the next round of the loop.
  unfoldable pub next_round :
      (List Value → String → Exec (World c.State) (List Value × String))
      → List Value
      → Page
      → Exec (World c.State) (List Value × String)
  next_round loop items stop w = (ok (items, ""), w)
  next_round loop items (page more cursor) w = loop (items ++ more) cursor w

  -- The loop `for cursor != "" && page < maxPages`, with the pages that are left; the items so far
  -- and the cursor at the end.
  unfoldable pub pages_loop :
      ℕ → Paging → List Value → String → Exec (World c.State) (List Value × String)
  pages_loop zero p items cursor w = (ok (items, cursor), w)
  pages_loop (suc left) p items cursor w = elim (is_empty cursor) [
    | true ↦ (ok (items, cursor), w)
    | false ↦
        (do next ← fetch_pagination_page p cursor; next_round (pages_loop left p) items next) w
  ]

  unfoldable pub store_pages : Paging → Value → List Value × String → Exec (World c.State) Value
  store_pages p parsed (items, cursor) w =
      (ok parsed, record w { heap = write_back p parsed items cursor w.heap })

  unfoldable pub paginate_call_tool : Pagination → Value → Exec (World c.State) Value
  paginate_call_tool cfg parsed w =
      (do
        p ← lift (pagination_config cfg)
        (items, cursor) ← lift (pagination_state w.heap parsed p)
        all ← pages_loop (further p) p items cursor
        store_pages p parsed all)
        w

  -- `updateNormalizedWithParsed`, whose result is dropped
  unfoldable pub update_normalized : Value → Value → Exec (World c.State) Value
  update_normalized result paged w =
      (ok paged, record w { heap = (update_normalized_with_parsed json w.heap result paged).1 })

  -- The guards of `normalizeAndPaginate`.
  unfoldable pub skips_pagination : Value → Bool
  skips_pagination parsed =
      is_nil parsed
      || not (str_eq (trim_space input.action) "callTool")
      || is_empty (trim_space input.tool)

  unfoldable pub paginate : Pagination → Value → Value → Exec (World c.State) Value
  paginate cfg result parsed =
      if skips_pagination parsed
      then pure parsed
      else (do paged ← paginate_call_tool cfg parsed; update_normalized result paged)

  unfoldable pub paginate_if : Option Pagination → Value → Value → Exec (World c.State) Value
  paginate_if none result parsed = pure parsed
  paginate_if (some cfg) result parsed = paginate cfg result parsed

  -- What was parsed, or nil; the result itself is changed in place.
  unfoldable pub normalize_and_paginate : Value → Exec (World c.State) Value
  normalize_and_paginate result = do
    parsed ← normalize result
    paginate_if input.pagination result parsed
