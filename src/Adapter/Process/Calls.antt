-- ===== src/Adapter/Process/Calls.antt =====
-- How often one `Process` of adapter/handler.go calls a tool.
use text.Mathlib.Text.{◌==◌ as str_eq}
use text.Mathlib.TextEquality.{eq_iff}
use mcp_adapter_engram.Base.{
  ◌+◌, ◌≤◌, ◌∙◌, String, ◌≡◌, ◌≢◌, ◌⊎◌, inl, inr, refl, false, Option, none, some, arith, ok, err,
  Result, Error, invalid_action, pos_part,
}
use mcp_adapter_engram.Text.{trim_space}
use mcp_adapter_engram.Heap.{Value}
use mcp_adapter_engram.Json.{Codec}
use mcp_adapter_engram.Mcp.Client.{Client, World, receive}
use mcp_adapter_engram.Mcp.Client.Counted.{counted, calls}
use mcp_adapter_engram.Adapter.Inputs.{Inputs, Pagination}
use mcp_adapter_engram.Adapter.Retry.{call_tool_with_retry}
use mcp_adapter_engram.Adapter.Retry.Bounds.{calls-call_tool_with_retry}
use mcp_adapter_engram.Adapter.Paginate.{
  normalize, normalize_and_paginate, paginate, paginate_if, skips_pagination,
}
use mcp_adapter_engram.Adapter.Paginate.Bounds.{allowed, calls-normalize_and_paginate}
use mcp_adapter_engram.Adapter.Process.{
  action_data, Engram, execute_action, execute_and_normalize, normalized_data, reconcile,
}

-- The actions other than a tool call, none of which is "callTool" when it is trimmed.
IsPlain : String → Type 0
IsPlain a =
    (a ≡ "reconcile")
    ⊎ ((a ≡ "listTools") ⊎ ((a ≡ "listResources") ⊎ ((a ≡ "readResource") ⊎ (a ≡ "getPrompt"))))

trim_space-IsPlain : (a : String) → IsPlain a → str_eq (trim_space a) "callTool" ≡ false
unfolding IsPlain trim_space
trim_space-IsPlain a (inl e) = rw e
trim_space-IsPlain a (inr (inl e)) = rw e
trim_space-IsPlain a (inr (inr (inl e))) = rw e
trim_space-IsPlain a (inr (inr (inr (inl e)))) = rw e
trim_space-IsPlain a (inr (inr (inr (inr e)))) = rw e

module _ (c : Client) (json : Codec) (e : Engram (counted c).State) (input : Inputs) where
  paginate_if-skips :
      (o : Option Pagination) (result parsed : Value) (w : World (counted c).State)
      → str_eq (trim_space input.action) "callTool" ≡ false
      → calls c (paginate_if (counted c) json input o result parsed w).1 ≡ calls c w
  unfolding paginate_if paginate skips_pagination
  paginate_if-skips none result parsed w h = refl
  paginate_if-skips (some cfg) result parsed w h = ground arith

  normalize_and_paginate-skips :
      (result : Value) (w : World (counted c).State)
      → str_eq (trim_space input.action) "callTool" ≡ false
      → calls c (normalize_and_paginate (counted c) json input result w).1 ≡ calls c w
  unfolding normalize_and_paginate normalize
  normalize_and_paginate-skips result w h = paginate_if-skips input.pagination result _ _ h

  normalized_data-calls :
      (result : Value) (r : Result Value × World (counted c).State)
      → calls c (normalized_data (counted c) json e input result r).1 ≡ calls c r.1
  unfolding normalized_data
  normalized_data-calls result (ok v, w) = refl
  normalized_data-calls result (err x, w) = refl

  execute_action_otherwise :
      (w : World (counted c).State)
      → input.action ≢ "callTool"
      → (calls c (execute_action (counted c) json e input w).1 ≡ calls c w)
        × (IsPlain input.action
            ⊎ (execute_action (counted c) json e input w ≡ (err (invalid_action input.action), w)))
  unfolding execute_action reconcile receive IsPlain
  execute_action_otherwise w h = ground (
    arith,
    eq_iff input.action "reconcile",
    eq_iff input.action "listTools",
    eq_iff input.action "callTool",
    eq_iff input.action "listResources",
    eq_iff input.action "readResource",
    eq_iff input.action "getPrompt",
  )

  action_data-skips :
      (r : Result Value × World (counted c).State)
      → str_eq (trim_space input.action) "callTool" ≡ false
      → calls c (action_data (counted c) json e input r).1 ≡ calls c r.1
  unfolding action_data
  action_data-skips (err x, w) h = refl
  action_data-skips (ok v, w) h =
      let normalized = normalize_and_paginate (counted c) json input v w in
      ground (arith, normalized_data-calls v normalized, normalize_and_paginate-skips v w h)

  action_data-err :
      (x : Error) (w : World (counted c).State)
      → calls c (action_data (counted c) json e input (err x, w)).1 ≡ calls c w
  unfolding action_data
  action_data-err x w = refl

  calls-action_data :
      (r : Result Value × World (counted c).State)
      → calls c (action_data (counted c) json e input r).1 ≤ calls c r.1 + allowed input.pagination
  unfolding action_data
  calls-action_data (err x, w) = omega arith
  calls-action_data (ok v, w) =
      let normalized = normalize_and_paginate (counted c) json input v w in
      ground
        (arith, normalized_data-calls v normalized, calls-normalize_and_paginate c json input v w)

  -- Any action but "callTool" leaves the number of tool calls as it is, whatever the retries and the
  -- pagination of the input.
  pub execute_and_normalize_otherwise :
      (w : World (counted c).State)
      → input.action ≢ "callTool"
      → calls c (execute_and_normalize (counted c) json e input w).1 ≡ calls c w
  unfolding execute_and_normalize
  execute_and_normalize_otherwise w h =
      let (same, known) = execute_action_otherwise w h in
      elim known [
        | inl plain ↦
            action_data-skips (execute_action (counted c) json e input w)
              (trim_space-IsPlain input.action plain)
            ∙ same
        | inr unknown ↦ ground (arith, unknown, action_data-err (invalid_action input.action) w)
      ]

  execute_action_call :
      (w : World (counted c).State)
      → input.action ≡ "callTool"
      → execute_action (counted c) json e input w
        ≡ call_tool_with_retry (counted c) e.cfg.mcp input w
  unfolding execute_action
  execute_action_call w h = rw h

  -- The action "callTool" calls a tool once, once more for each configured retry, and for each
  -- further page that its pagination allows, at most.
  pub calls-execute_and_normalize :
      (w : World (counted c).State)
      → input.action ≡ "callTool"
      → calls c (execute_and_normalize (counted c) json e input w).1
        ≤ calls c w + (1 + pos_part e.cfg.mcp.call_tool_retries + allowed input.pagination)
  unfolding execute_and_normalize
  calls-execute_and_normalize w h =
      let r = execute_action (counted c) json e input w in
      ground (
        arith,
        calls-action_data r,
        execute_action_call w h,
        calls-call_tool_with_retry c e.cfg.mcp input w,
      )
