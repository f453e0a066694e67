-- ===== src/Adapter/Inputs.antt =====
-- pkg/adapter: the parameters of one call (`Inputs` of handler.go, `Pagination` of pagination.go).
use mcp_adapter_engram.Base.{String, Bool, Option, Map, ℤ}
use mcp_adapter_engram.Heap.{Value}

pub record Pagination : Type 0 where
  pub cursor_param : String
  pub cursor_path : String
  pub items_path : String
  pub max_pages : ℤ

-- A nil map and an empty one are the same here: the adapter does not tell them apart.
pub record Inputs : Type 0 where
  pub action : String
  pub tool : String
  pub arguments : Map Value
  pub pagination : Option Pagination
  pub resource_uri : String
  pub prompt_name : String
  pub reconcile : Bool
  pub timeout : ℤ
  pub server : String
