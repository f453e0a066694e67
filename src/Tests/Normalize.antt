-- ===== src/Tests/Normalize.antt =====
-- Normalisation of adapter/normalize.go on a concrete payload.
use mcp_adapter_engram.Base.{[], ◌∷◌}
use mcp_adapter_engram.Heap.{str, list, obj, elems, entries, Heap}
use mcp_adapter_engram.Adapter.Normalize.{normalize_mcp_result}
use mcp_adapter_engram.Adapter.Normalize.Verbatim.{Annotates, normalize_mcp_result-Annotates}
use mcp_adapter_engram.Tests.Example.{codec}

-- {"data": [{"text": "{}"}]}
abbrev data_form : Heap
data_form =
    entries (("data", list 1) ∷ []) ∷ elems (obj 2 ∷ []) ∷ entries (("text", str "{}") ∷ []) ∷ []

normalize_mcp_result-Annotates_example :
    Annotates data_form (normalize_mcp_result codec data_form (obj 0)).1
normalize_mcp_result-Annotates_example = normalize_mcp_result-Annotates codec data_form (obj 0)
