-- ===== src/Tests/Paginate.antt =====
-- Pagination of adapter/pagination.go on the script.
use mcp_adapter_engram.Base.{◌≤◌, ◌≡◌, [], ◌∷◌, ◌++◌, pos}
use mcp_adapter_engram.Base.Exec.{◌>>=◌, pure}
use mcp_adapter_engram.Heap.{str, nil}
use mcp_adapter_engram.Mcp.Client.Counted.{calls, counted}
use mcp_adapter_engram.Adapter.Paginate.{Paging, normalize_and_paginate, pages_loop}
use mcp_adapter_engram.Adapter.Paginate.Bounds.{calls-normalize_and_paginate}
use mcp_adapter_engram.Adapter.Paginate.Pages.{concat, pages, pages_loop-eq-pages}
use mcp_adapter_engram.Tests.Example.{codec, counted_world, input, script, world}

abbrev paging : Paging
paging = record {
  cursor_param = "cursor";
  cursor_path = "next";
  items_path = "items";
  max_pages = pos 3;
}

calls-normalize_and_paginate_example :
    calls script
      (normalize_and_paginate (counted script) codec (input "callTool") (str "{}") counted_world).1
    ≤ 2
calls-normalize_and_paginate_example =
    calls-normalize_and_paginate script codec (input "callTool") (str "{}") counted_world

pages_loop-eq-pages_example :
    pages_loop script codec (input "callTool") 2 paging (nil ∷ []) "c0" world
    ≡ (do
      (ps, final) ← pages script codec (input "callTool") 2 paging "c0"
      pure ((nil ∷ []) ++ concat ps, final))
        world
pages_loop-eq-pages_example =
    pages_loop-eq-pages script codec (input "callTool") 2 paging (nil ∷ []) "c0" world
