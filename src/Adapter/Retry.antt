-- ===== src/Adapter/Retry.antt =====
-- pkg/adapter/handler.go: `callToolWithRetry`.
pub mod Bounds
pub mod Outcome
use mcp_adapter_engram.Base.{
  ℕ, zero, suc, Bool, true, false, Option, none, some, ℤ, pos, negsuc, leb_ℤ, pos_part, Result, ok,
  err, Error, if◌then◌else◌,
}
use mcp_adapter_engram.Base.Exec.{Exec, pure, ◌>>=◌, ◌>>◌}
use mcp_adapter_engram.Heap.{Value}
use mcp_adapter_engram.Config.{McpInitConfig}
use mcp_adapter_engram.Mcp.Client.{Client, World, receive}
use mcp_adapter_engram.Adapter.Inputs.{Inputs}
use mcp_adapter_engram.Adapter.Transient.{is_mcp_transient_error}

-- `delay <= 0` means two seconds.
unfoldable pub retry_delay : ℤ → ℤ
retry_delay d = if leb_ℤ d (pos 0) then pos 2_000_000_000 else d

abbrev from_option : {S : Type 0} → Option Error × S → Result (Unit {0}) × S
from_option (none, s) = (ok tt, s)
from_option (some e, s) = (err e, s)

module _ (c : Client) (cfg : McpInitConfig) (input : Inputs) where
  -- `e.client.CallTool(ctx, in.Tool, in.Arguments)`
  unfoldable pub call_once : Exec (World c.State) Value
  call_once w = receive w.heap (c.call_tool w.heap input.tool input.arguments w.remote)

  -- The select.
  unfoldable pub wait : Exec (World c.State) (Unit {0})
  wait w =
      let (e, s) = c.pause (retry_delay cfg.call_tool_retry_delay) w.remote in
      from_option (e, record w { remote = s })

  -- The loop, with the attempts that are left. The value that Go returns beside an error is
  -- dropped by the caller.
  unfoldable pub retry_loop : ℕ → Value → Exec (World c.State) Value
  retry_loop zero result w = (ok result, w)
  retry_loop (suc left) result w = elim (is_mcp_transient_error w.heap result) [
    | false ↦ (ok result, w)
    | true ↦ (do wait; next ← call_once; retry_loop left next) w
  ]

  unfoldable pub call_tool_with_retry : Exec (World c.State) Value
  call_tool_with_retry = do
    result ← call_once
    (if leb_ℤ cfg.call_tool_retries (pos 0)
        then pure result
        else retry_loop (pos_part cfg.call_tool_retries) result)
