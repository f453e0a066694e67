-- ===== src/Kube/Labels.antt =====
-- pkg/kube/labels.go: the labels of all that the adapter keeps in the cluster.
use mcp_adapter_engram.Base.{String, [], ◌∷◌, Map}

unfoldable pub common_labels : String → Map String
common_labels engram_name =
    ("app.kubernetes.io/name", "mcp-adapter-engram")
    ∷ ("bubustack.io/engram", engram_name)
    ∷ ("mcp.bubustack.io/type", "server")
    ∷ []
