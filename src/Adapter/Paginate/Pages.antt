-- ===== src/Adapter/Paginate/Pages.antt =====
-- The loop of `paginateCallTool` of adapter/pagination.go, with its accumulator, against the plain
-- list of pages.
use mathlib.Core.List.{append-nil, append_assoc}
use mcp_adapter_engram.Base.{
  ℕ, zero, suc, ◌≡◌, refl, ◌∙◌, String, true, false, List, [], ◌∷◌, ◌++◌, Bool-cases, Result-cases,
  inl, inr, ◌⊎◌, ok,
}
use mcp_adapter_engram.Base.Exec.{Exec, ◌>>=◌, pure}
use mcp_adapter_engram.Text.{is_empty}
use mcp_adapter_engram.Heap.{Value}
use mcp_adapter_engram.Json.{Codec}
use mcp_adapter_engram.Mcp.Client.{Client, World}
use mcp_adapter_engram.Adapter.Inputs.{Inputs}
use mcp_adapter_engram.Adapter.Paginate.{
  fetch_pagination_page, page, Page, pages_loop, Paging, stop, next_round,
}

abbrev pub concat : List (List Value) → List Value
concat [] = []
concat (xs ∷ rest) = xs ++ concat rest

Page-cases :
    (r : Page) → (r ≡ stop) ⊎ ((more : List Value) × (cursor : String) × (r ≡ page more cursor))
Page-cases stop = inl refl
Page-cases (page more cursor) = inr (more, cursor, refl)

module _ (c : Client) (json : Codec) (input : Inputs) where
  -- The pages that follow a cursor, n of them at most, each fetched with the cursor of the one
  -- before, and the cursor at the end: empty if there was a page without items or a last page.
  unfoldable pub pages : ℕ → Paging → String → Exec (World c.State) (List (List Value) × String)
  pages zero p cursor w = (ok ([], cursor), w)
  pages (suc n) p cursor w = elim (is_empty cursor) [
    | true ↦ (ok ([], cursor), w)
    | false ↦
        (do
          next ← fetch_pagination_page c json input p cursor
          elim next [
            | stop ↦ pure ([], "")
            | page more cursor' ↦ (do (rest, final) ← pages n p cursor'; pure (more ∷ rest, final))
          ])
          w
  ]

  -- The loop returns the items that it was given followed by those of all pages that follow the
  -- cursor, in order, with the last cursor; it makes the same calls and it fails where they fail.
  pub pages_loop-eq-pages :
      (n : ℕ) (p : Paging) (items : List Value) (cursor : String) (w : World c.State)
      → pages_loop c json input n p items cursor w
        ≡ (do (ps, final) ← pages n p cursor; pure (items ++ concat ps, final)) w
  unfolding pages_loop pages next_round
  pages_loop-eq-pages zero p items cursor w = rw append-nil
  pages_loop-eq-pages (suc n) p items cursor w = elim (Bool-cases (is_empty cursor)) [
    | inl b ↦ rw (b, pages_loop, pages) (rw append-nil)
    | inr b ↦ elim (Result-cases (fetch_pagination_page c json input p cursor w).0) [
      | inr (e, f) ↦ rw (b, f, pages_loop, pages) refl
      | inl (next, f) ↦ elim (Page-cases next) [
        | inl g ↦ rw (b, f, g, pages_loop, pages, next_round) (rw append-nil)
        | inr (more, cursor', g) ↦
            let w1 = (fetch_pagination_page c json input p cursor w).1 in
            rw (b, f, g, pages_loop, pages, next_round)
              (pages_loop-eq-pages n p (items ++ more) cursor' w1
                ∙ elim (Result-cases (pages n p cursor' w1).0) [
                  | inr (e, r) ↦ rw r
                  | inl (ps, r) ↦ rw r (rw append_assoc)
                ])
      ]
    ]
  ]
