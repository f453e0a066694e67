-- ===== src/Json.antt =====
-- `encoding/json`, whose texts the adapter passes on and never looks into: a parameter.
use mcp_adapter_engram.Base.{String, Option}
use mcp_adapter_engram.Heap.{Value, Heap, Decoded}

pub record Codec : Type 0 where
  -- `json.Unmarshal` into an `any`; none for an error. What it builds is fresh.
  pub unmarshal : String → Option Decoded
  -- `json.Marshal` of an `any`; none for an error.
  pub marshal : Heap → Value → Option String
