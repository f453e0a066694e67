-- ===== src/Adapter/Retry/Bounds.antt =====
-- How often `callToolWithRetry` of adapter/handler.go calls the tool.
use mcp_adapter_engram.Base.{
  ℕ, zero, suc, ◌+◌, ◌≤◌, arith, Bool-cases, inl, inr, if◌then◌else◌, pos, leb_ℤ, pos_part,
}
use mcp_adapter_engram.Base.Exec.{Exec, ◌>>=◌, ◌>>◌, pure}
use mcp_adapter_engram.Heap.{Value}
use mcp_adapter_engram.Config.{McpInitConfig}
use mcp_adapter_engram.Mcp.Client.{Client, World, receive}
use mcp_adapter_engram.Mcp.Client.Counted.{counted, calls, Costs, Costs-bind, Costs-weaken}
use mcp_adapter_engram.Adapter.Inputs.{Inputs}
use mcp_adapter_engram.Adapter.Retry.{call_once, call_tool_with_retry, retry_loop, wait}
use mcp_adapter_engram.Adapter.Transient.{is_mcp_transient_error}

module _ (c : Client) (cfg : McpInitConfig) (input : Inputs) where
  pub call_once-Costs : Costs c 1 1 (call_once (counted c) cfg input)
  unfolding call_once receive
  call_once-Costs = record { at = λ w. ground arith }

  wait-Costs : Costs c 0 0 (wait (counted c) cfg input)
  unfolding wait
  wait-Costs = record { at = λ w. ground arith }

  again-Costs :
      (left : ℕ) (k : Value → Exec (World (counted c).State) Value)
      → ((v : Value) → Costs c 0 left (k v))
      → Costs c 0
          (suc left)
          (do wait (counted c) cfg input; next ← call_once (counted c) cfg input; k next)
  again-Costs left k ck =
      let called : Costs c 1 (1 + left) (do next ← call_once (counted c) cfg input; k next) =
        Costs-bind c _ k call_once-Costs ck in
      let paused =
        Costs-bind c (wait (counted c) cfg input) _ wait-Costs
          (λ _. Costs-weaken c {lo' = 0} {hi' = 1 + left} called (omega arith) (omega arith)) in
      Costs-weaken c paused (omega arith) (omega arith)

  retry_loop-Costs :
      (left : ℕ) (v : Value) → Costs c 0 left (retry_loop (counted c) cfg input left v)
  unfolding retry_loop
  retry_loop-Costs zero v = record { at = λ w. omega arith }
  retry_loop-Costs (suc left) v = record {
    at = λ w. elim (Bool-cases (is_mcp_transient_error w.heap v)) [
      | inl b ↦
          rw (b, retry_loop)
            ((again-Costs left (retry_loop (counted c) cfg input left) (retry_loop-Costs left)).at
              w)
      | inr b ↦ rw (b, retry_loop) (omega arith)
    ];
  }

  or_retry-Costs :
      (v : Value)
      → Costs c 0 (pos_part cfg.call_tool_retries) (
          if leb_ℤ cfg.call_tool_retries (pos 0)
          then pure v
          else retry_loop (counted c) cfg input (pos_part cfg.call_tool_retries) v)
  or_retry-Costs v = elim (Bool-cases (leb_ℤ cfg.call_tool_retries (pos 0))) [
    | inl b ↦ rw b (record { at = λ w. omega arith })
    | inr b ↦ rw b (retry_loop-Costs _ v)
  ]

  call_tool_with_retry-Costs :
      Costs c 1 (1 + pos_part cfg.call_tool_retries) (call_tool_with_retry (counted c) cfg input)
  unfolding call_tool_with_retry
  call_tool_with_retry-Costs = Costs-bind c _ _ call_once-Costs or_retry-Costs

  -- One call of `callToolWithRetry` calls the tool at least once, and at most once more than the
  -- configured retries (of which a negative number counts as none).
  pub calls-call_tool_with_retry :
      (w : World (counted c).State)
      → (calls c w + 1 ≤ calls c (call_tool_with_retry (counted c) cfg input w).1)
        × (calls c (call_tool_with_retry (counted c) cfg input w).1
            ≤ calls c w + (1 + pos_part cfg.call_tool_retries))
  calls-call_tool_with_retry w = call_tool_with_retry-Costs.at w
