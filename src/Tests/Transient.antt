-- ===== src/Tests/Transient.antt =====
-- The classifier of transient errors of adapter/handler.go on concrete results.
use mcp_adapter_engram.Base.{◌≡◌, ◌↔◌, refl, true, false, [], ◌∷◌}
use mcp_adapter_engram.Heap.{bool, str, list, obj, elems, entries, Heap}
use mcp_adapter_engram.Adapter.Transient.{classifier, is_mcp_transient_error}
use mcp_adapter_engram.Adapter.Transient.Classifier.{IsTransient, is_mcp_transient_error_iff}

-- {"isError": true, "content": [{"text": "Not logged in"}]} in its first object.
abbrev logging_in : Heap
logging_in =
    entries (("isError", bool true) ∷ ("content", list 1) ∷ [])
    ∷ elems (obj 2 ∷ [])
    ∷ entries (("text", str "Not logged in") ∷ [])
    ∷ []

found : is_mcp_transient_error logging_in (obj 0) ≡ true
unfolding classifier
found = refl

-- Without "isError" the text does not matter.
not_an_error :
    is_mcp_transient_error (entries (("message", str "timed out") ∷ []) ∷ []) (obj 0) ≡ false
unfolding classifier
not_an_error = refl

is_mcp_transient_error_iff_example :
    (is_mcp_transient_error logging_in (obj 0) ≡ true) ↔ IsTransient logging_in (obj 0)
is_mcp_transient_error_iff_example = is_mcp_transient_error_iff logging_in (obj 0)
