-- ===== src/Tests/Retry.antt =====
-- `callToolWithRetry` of adapter/handler.go on the script.
use mcp_adapter_engram.Base.{◌≤◌, ◌≡◌, refl, List, ok, Result}
use mcp_adapter_engram.Heap.{alloc, obj, Decoded}
use mcp_adapter_engram.Mcp.Client.{receive, World}
use mcp_adapter_engram.Mcp.Client.Counted.{calls, counted}
use mcp_adapter_engram.Adapter.Retry.{call_once, call_tool_with_retry}
use mcp_adapter_engram.Adapter.Retry.Bounds.{calls-call_tool_with_retry}
use mcp_adapter_engram.Adapter.Retry.Outcome.{
  IsFirstSettled, call_tool_with_retry-IsFirstSettled, tries,
}
use mcp_adapter_engram.Tests.Example.{counted_world, input, mcp_config, script, world}

abbrev after_first : World (List (Result Decoded))
after_first = (call_once script mcp_config (input "callTool") world).1

first : call_once script mcp_config (input "callTool") world ≡ (ok (obj 0), after_first)
unfolding call_once receive alloc
first = refl

calls-call_tool_with_retry_example :
    (1
      ≤ calls script
          (call_tool_with_retry (counted script) mcp_config (input "callTool") counted_world).1)
    × (calls script
          (call_tool_with_retry (counted script) mcp_config (input "callTool") counted_world).1
        ≤ 3)
calls-call_tool_with_retry_example =
    calls-call_tool_with_retry script mcp_config (input "callTool") counted_world

call_tool_with_retry-IsFirstSettled_example :
    IsFirstSettled script mcp_config
      (input "callTool")
      2
      (λ n. tries script mcp_config (input "callTool") n (obj 0) after_first)
      (call_tool_with_retry script mcp_config (input "callTool") world)
call_tool_with_retry-IsFirstSettled_example =
    call_tool_with_retry-IsFirstSettled script mcp_config (input "callTool") (obj 0) world
      after_first first
