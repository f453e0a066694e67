-- ===== src/Adapter/Process.antt =====
-- pkg/adapter/handler.go: `Process`, one action and its output.
pub mod Calls
pub mod Envelope
use text.Mathlib.Text.{◌==◌ as str_eq}
use mcp_adapter_engram.Base.{
  ℕ, String, Bool, true, false, ◌&&◌, not, Option, none, some, List, [], ◌∷◌, ◌++◌, if◌then◌else◌,
  length, Map, ℤ, pos, leb_ℤ, Result, ok, err, Error, error_text, invalid_action, eof, message,
}
use mcp_adapter_engram.Base.Exec.{Exec}
use mcp_adapter_engram.Text.{is_empty, lower_eq}
use mcp_adapter_engram.Heap.{Value, nil, bool, obj, entries}
use mcp_adapter_engram.Json.{Codec}
use mcp_adapter_engram.Config.{Config}
use mcp_adapter_engram.Mcp.Client.{Client, World, receive}
use mcp_adapter_engram.Adapter.Inputs.{Inputs}
use mcp_adapter_engram.Adapter.Retry.{call_tool_with_retry}
use mcp_adapter_engram.Adapter.Normalize.{is_nil}
use mcp_adapter_engram.Adapter.Paginate.{normalize_and_paginate}

-- What `engramImpl` holds beside its client.
pub record Engram (S : Type 0) : Type 0 where
  pub cfg : Config
  -- `e.client != nil`
  pub has_client : Bool
  pub cleanup : Option (S → Option Error × S)
  pub runner_pod : String
  pub streaming : Bool

-- The clock and the context, which `Process` uses beside the client.
pub record Host (S : Type 0) : Type 0 where
  -- `time.Since(start).Milliseconds()`, from the state at the start and the state now
  pub milliseconds : S → S → ℤ
  -- `context.WithTimeout(ctx, d)` and the call of its cancel function
  pub with_timeout : ℤ → S → S
  pub cancel : S → S

pub record Meta : Type 0 where
  pub duration_ms : ℤ
  pub tool : Option String
  pub server : Option String

-- The map under "data". A key that is not set is `none`; "error" holds the text under "message".
pub record Data : Type 0 where
  pub result : Option Value
  pub result_parsed : Option Value
  pub error : Option String
  pub meta : Option Meta

abbrev pub no_data : Data
no_data = record { result = none; result_parsed = none; error = none; meta = none }

abbrev pub failed : String → Data
failed text = record { result = none; result_parsed = none; error = some text; meta = none }

-- `recordActionError`
unfoldable pub action_error : Error → String
action_error (invalid_action action) = "invalid action"
action_error e = error_text e

-- `if e.cleanup != nil { _ = e.cleanup(ctx) }`
abbrev pub run_cleanup : {S : Type 0} → Option (S → Option Error × S) → World S → World S
run_cleanup none w = w
run_cleanup (some f) w = record w { remote = (f w.remote).1 }

module _ (c : Client) (json : Codec) (e : Engram c.State) (input : Inputs) where
  -- `map[string]any{"ok": true}`
  unfoldable pub reconcile : Exec (World c.State) Value
  reconcile w = (
    ok (obj (length w.heap)),
    record w { heap = w.heap ++ entries (("ok", bool true) ∷ []) ∷ [] },
  )

  unfoldable pub execute_action : Exec (World c.State) Value
  execute_action w =
      if str_eq input.action "reconcile"
      then reconcile w
      else if str_eq input.action "listTools"
      then receive w.heap (c.list_tools w.remote)
      else if str_eq input.action "callTool"
      then call_tool_with_retry c e.cfg.mcp input w
      else if str_eq input.action "listResources"
      then receive w.heap (c.list_resources w.remote)
      else if str_eq input.action "readResource"
      then receive w.heap (c.read_resource input.resource_uri w.remote)
      else if str_eq input.action "getPrompt"
      then receive w.heap (c.get_prompt input.prompt_name w.remote)
      else (err (invalid_action input.action), w)

  abbrev unless_nil : Value → Option Value
  unless_nil v = if is_nil v then none else some v

  -- `storeNormalizedResult`, with the error that `executeAndNormalize` records
  unfoldable pub normalized_data : Value → Result Value × World c.State → Data × World c.State
  normalized_data result (err x, w) = (failed (error_text x), w)
  normalized_data result (ok parsed, w) =
      (record no_data { result = some result; result_parsed = unless_nil parsed }, w)

  unfoldable pub action_data : Result Value × World c.State → Data × World c.State
  action_data (err x, w) = (failed (action_error x), w)
  action_data (ok result, w) =
      if is_nil result
      then (no_data, w)
      else normalized_data result (normalize_and_paginate c json input result w)

  unfoldable pub execute_and_normalize : World c.State → Data × World c.State
  execute_and_normalize w = action_data (execute_action w)

  abbrev unless_empty : String → Option String
  unless_empty s = if is_empty s then none else some s

  unfoldable pub result_meta : ℤ → Meta
  result_meta duration = record {
    duration_ms = duration;
    tool = unless_empty input.tool;
    server =
        if lower_eq e.cfg.transport "streamable_http"
        then unless_empty e.cfg.server.base_url
        else if lower_eq e.cfg.transport "stdio"
        then unless_empty e.runner_pod
        else none;
  }

  module _ (host : Host c.State) where
    -- The context of the call.
    unfoldable pub with_optional_timeout : World c.State → World c.State
    with_optional_timeout w =
        if leb_ℤ input.timeout (pos 0)
        then w
        else record w { remote = host.with_timeout input.timeout w.remote }

    -- Best effort in batch mode: the error is dropped.
    unfoldable pub batch_cleanup : World c.State → World c.State
    batch_cleanup w = if e.streaming then w else run_cleanup e.cleanup w

    unfoldable pub process : World c.State → Data × World c.State
    process w =
        if e.has_client
        then (let (d, w1) = execute_and_normalize (with_optional_timeout w) in
            let meta = result_meta (host.milliseconds w.remote w1.remote) in
            let w2 = batch_cleanup w1 in
            (record d { meta = some meta }, record w2 { remote = host.cancel w2.remote }))
        else (failed "client not initialized", w)
