-- ===== src/Mcp/Client.antt =====
-- pkg/mcp/client.go: the interface by which the adapter speaks to an MCP server, over an unknown
-- state of all that is outside (server, connection, clock, cancellation of the context).
pub mod Counted
use mcp_adapter_engram.Base.{String, Option, List, Map, Result, ok, err, Error, ℤ}
use mcp_adapter_engram.Heap.{Value, Heap, Decoded, alloc}

-- What a method returns is freshly decoded: it shares nothing with what was there before. The heap
-- is given to the methods that read their arguments from it.
pub record Client : Type 1 where
  pub State : Type 0
  pub initialize : Heap → Option (Map Value) → State → Result Decoded × State
  pub notify_initialized : State → Option Error × State
  pub list_tools : State → Result Decoded × State
  pub call_tool : Heap → String → Map Value → State → Result Decoded × State
  pub list_resources : State → Result Decoded × State
  pub read_resource : String → State → Result Decoded × State
  pub get_prompt : String → State → Result Decoded × State
  -- `select { case <-ctx.Done(): … ctx.Err() …; case <-time.After(d): }`, with `none` where the
  -- time has passed and the error where the context was done first.
  pub pause : ℤ → State → Option Error × State

-- The heap and the outside.
pub record World (S : Type 0) : Type 0 where
  pub heap : Heap
  pub remote : S

-- Puts a reply into the heap.
unfoldable pub receive : {S : Type 0} → Heap → Result Decoded × S → Result Value × World S
unfolding alloc
receive h (err e, s) = (err e, record { heap = h; remote = s })
receive h (ok d, s) = let (v, h') = alloc d h in (ok v, record { heap = h'; remote = s })
