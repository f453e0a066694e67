-- ===== src/Adapter/Paginate/Bounds.antt =====
-- How many pages pagination of adapter/pagination.go asks for.
use mcp_adapter_engram.Base.{
  ℕ, zero, suc, ◌+◌, ◌-◌, ◌≤◌, ◌≡◌, String, Option, none, some, List, ◌++◌, arith, Bool-cases,
  Result-cases, inl, inr, pos, leb_ℤ, pos_part, if◌then◌else◌, ok,
}
use mcp_adapter_engram.Base.Exec.{Exec}
use mcp_adapter_engram.Text.{is_empty}
use mcp_adapter_engram.Heap.{Value}
use mcp_adapter_engram.Json.{Codec}
use mcp_adapter_engram.Mcp.Client.{Client, World, receive}
use mcp_adapter_engram.Mcp.Client.Counted.{counted, calls, Costs, Costs-bind, Costs-weaken}
use mcp_adapter_engram.Adapter.Inputs.{Inputs, Pagination}
use mcp_adapter_engram.Adapter.Paginate.{
  call_page, fetch_pagination_page, further, normalize, normalize_and_paginate, page, page_of,
  paginate, paginate_if, next_round, paginate_call_tool, pages_loop, pagination_config,
  pagination_state, Paging, skips_pagination, stop, store_pages, update_normalized, Page,
}

-- The further pages that an input allows: none without pagination, else one less than `maxPages`,
-- which is 5 if it is not positive.
abbrev pub allowed : Option Pagination → ℕ
allowed none = 0
allowed (some cfg) = (if leb_ℤ cfg.max_pages (pos 0) then 5 else pos_part cfg.max_pages) - 1

further-eq-allowed :
    (cfg : Pagination) {p : Paging} → pagination_config cfg ≡ ok p → further p ≡ allowed (some cfg)
unfolding pagination_config
further-eq-allowed cfg e = ground arith

module _ (c : Client) (json : Codec) (input : Inputs) where
  call_page-Costs :
      (p : Paging) (cursor : String) → Costs c 1 1 (call_page (counted c) json input p cursor)
  unfolding call_page receive
  call_page-Costs p cursor = record { at = λ w. ground arith }

  normalize-Costs : (v : Value) → Costs c 0 0 (normalize (counted c) json input v)
  unfolding normalize
  normalize-Costs v = record { at = λ w. omega arith }

  page_of-Costs : (p : Paging) (v : Value) → Costs c 0 0 (page_of (counted c) json input p v)
  unfolding page_of
  page_of-Costs p v = record { at = λ w. ground arith }

  fetch-Costs :
      (p : Paging) (cursor : String)
      → Costs c 1 1 (fetch_pagination_page (counted c) json input p cursor)
  unfolding fetch_pagination_page
  fetch-Costs p cursor =
      Costs-weaken c
        (Costs-bind c _ _ (call_page-Costs p cursor)
          (λ v. Costs-bind c _ _ (normalize-Costs v) (page_of-Costs p)))
        (omega arith) (omega arith)

  next_round-Costs :
      (left : ℕ) (loop : List Value → String → Exec (World (counted c).State) (List Value × String))
      (items : List Value) (next : Page)
      → ((xs : List Value) (cursor : String) → Costs c 0 left (loop xs cursor))
      → Costs c 0 left (next_round (counted c) json input loop items next)
  unfolding next_round
  next_round-Costs left loop items stop h = record { at = λ w. omega arith }
  next_round-Costs left loop items (page more cursor) h = h (items ++ more) cursor

  pages_loop-Costs :
      (left : ℕ) (p : Paging) (items : List Value) (cursor : String)
      → Costs c 0 left (pages_loop (counted c) json input left p items cursor)
  unfolding pages_loop
  pages_loop-Costs zero p items cursor = record { at = λ w. omega arith }
  pages_loop-Costs (suc left) p items cursor =
      let round = Costs-bind c _ _ (fetch-Costs p cursor) (λ next.
        next_round-Costs left (pages_loop (counted c) json input left p) items next
          (pages_loop-Costs left p)) in
      record {
        at = λ w. elim (Bool-cases (is_empty cursor)) [
          | inl b ↦ rw (b, pages_loop) (omega arith)
          | inr b ↦
              rw (b, pages_loop)
                ((Costs-weaken c {lo' = 0} {hi' = suc left} round (omega arith) (omega arith)).at w)
        ];
      }

  store_pages-Costs :
      (p : Paging) (parsed : Value) (all : List Value × String)
      → Costs c 0 0 (store_pages (counted c) json input p parsed all)
  unfolding store_pages
  store_pages-Costs p parsed all = record { at = λ w. omega arith }

  paginate_call_tool-Costs :
      (cfg : Pagination) (parsed : Value)
      → Costs c 0 (allowed (some cfg)) (paginate_call_tool (counted c) json input cfg parsed)
  unfolding paginate_call_tool
  paginate_call_tool-Costs cfg parsed = record {
    at = λ w. elim (Result-cases (pagination_config cfg)) [
      | inr (x, e) ↦ rw (e, paginate_call_tool) (omega arith)
      | inl (p, e) ↦ elim (Result-cases (pagination_state w.heap parsed p)) [
        | inr (x, f) ↦ rw (e, f, paginate_call_tool) (omega arith)
        | inl ((items, cursor), f) ↦
            let looped =
              Costs-bind c _ _ (pages_loop-Costs (further p) p items cursor)
                (store_pages-Costs p parsed) in
            rw (e, f, paginate_call_tool) (omega (arith, looped.at w, further-eq-allowed cfg e))
      ]
    ];
  }

  update-Costs :
      (result paged : Value) → Costs c 0 0 (update_normalized (counted c) json input result paged)
  unfolding update_normalized
  update-Costs result paged = record { at = λ w. omega arith }

  paginate-Costs :
      (cfg : Pagination) (result parsed : Value)
      → Costs c 0 (allowed (some cfg)) (paginate (counted c) json input cfg result parsed)
  unfolding paginate
  paginate-Costs cfg result parsed =
      elim (Bool-cases (skips_pagination (counted c) json input parsed)) [
        | inl b ↦ rw b (record { at = λ w. omega arith })
        | inr b ↦ rw b (
            Costs-weaken c
              (Costs-bind c _ _ (paginate_call_tool-Costs cfg parsed) (update-Costs result))
              (omega arith) (omega arith))
      ]

  paginate_if-Costs :
      (o : Option Pagination) (result parsed : Value)
      → Costs c 0 (allowed o) (paginate_if (counted c) json input o result parsed)
  unfolding paginate_if
  paginate_if-Costs none result parsed = record { at = λ w. omega arith }
  paginate_if-Costs (some cfg) result parsed = paginate-Costs cfg result parsed

  pub normalize_and_paginate-Costs :
      (result : Value)
      → Costs c 0 (allowed input.pagination) (normalize_and_paginate (counted c) json input result)
  unfolding normalize_and_paginate
  normalize_and_paginate-Costs result =
      Costs-weaken c
        (Costs-bind c _ _ (normalize-Costs result) (paginate_if-Costs input.pagination result))
        (omega arith) (omega arith)

  -- Normalising a result and following its pages calls the tool no more often than the input's
  -- `maxPages` less one (which counts as 5 if it is not positive), and not at all without
  -- pagination.
  pub calls-normalize_and_paginate :
      (result : Value) (w : World (counted c).State)
      → calls c (normalize_and_paginate (counted c) json input result w).1
        ≤ calls c w + allowed input.pagination
  calls-normalize_and_paginate result w = ((normalize_and_paginate-Costs result).at w).1
