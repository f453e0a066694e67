-- ===== src/Tests/Example.antt =====
-- A client that answers from a script, and the data of the tests.
use mcp_adapter_engram.Base.{
  ℕ, ◌+◌, String, true, false, none, some, List, [], ◌∷◌, pos, Result, ok, err, eof,
}
use mcp_adapter_engram.Heap.{bool, str, list, obj, elems, entries, Decoded}
use mcp_adapter_engram.Json.{Codec}
use mcp_adapter_engram.Config.{Config, McpInitConfig}
use mcp_adapter_engram.Mcp.Client.{Client, World}
use mcp_adapter_engram.Adapter.Inputs.{Inputs, Pagination}
use mcp_adapter_engram.Adapter.Process.{Engram, Host}

abbrev answer : List (Result Decoded) → Result Decoded × List (Result Decoded)
answer [] = (err eof, [])
answer (r ∷ rs) = (r, rs)

-- Every request is answered by the next reply of the script.
abbrev pub script : Client
script = record {
  State = List (Result Decoded);
  initialize = λ h caps rs. answer rs;
  notify_initialized = λ rs. (none, rs);
  list_tools = answer;
  call_tool = λ h tool args rs. answer rs;
  list_resources = answer;
  read_resource = λ uri rs. answer rs;
  get_prompt = λ name rs. answer rs;
  pause = λ d rs. (none, rs);
}

-- It decodes any text to a map with the text under "id".
abbrev pub codec : Codec
codec = record {
  unmarshal = λ text. some (λ a. (obj a, entries (("id", str text) ∷ []) ∷ []));
  marshal = λ h v. some "{}";
}

-- {"isError": true, "message": "Not logged in"}
abbrev pub not_ready : Decoded
not_ready =
    λ a. (obj a, entries (("isError", bool true) ∷ ("message", str "Not logged in") ∷ []) ∷ [])

-- {"items": ["x"], "next": <cursor>}
abbrev pub page_reply : String → Decoded
page_reply cursor = λ a. (
  obj a,
  entries (("items", list (a + 1)) ∷ ("next", str cursor) ∷ []) ∷ elems (str "x" ∷ []) ∷ [],
)

abbrev pub mcp_config : McpInitConfig
mcp_config = record {
  init_client_capabilities = none;
  post_init_delay = pos 0;
  call_tool_retries = pos 2;
  call_tool_retry_delay = pos 0;
}

abbrev pub config : Config
config = record {
  transport = "stdio";
  server = record { base_url = ""; headers = []; headers_from_secret = [] };
  mcp = mcp_config;
}

abbrev pub paging_input : Pagination
paging_input = record {
  cursor_param = "cursor";
  cursor_path = "next";
  items_path = "items";
  max_pages = pos 3;
}

abbrev pub input : String → Inputs
input action = record {
  action = action;
  tool = "search";
  arguments = [];
  pagination = some paging_input;
  resource_uri = "";
  prompt_name = "";
  reconcile = false;
  timeout = pos 0;
  server = "";
}

abbrev pub engram : {S : Type 0} → Engram S
engram = record {
  cfg = config;
  has_client = true;
  cleanup = none;
  runner_pod = "runner";
  streaming = false;
}

abbrev pub host : {S : Type 0} → Host S
host = record { milliseconds = λ s t. pos 1; with_timeout = λ d s. s; cancel = λ s. s }

abbrev pub replies : List (Result Decoded)
replies = ok not_ready ∷ ok (page_reply "c1") ∷ ok (page_reply "c2") ∷ ok (page_reply "") ∷ []

abbrev pub world : World (List (Result Decoded))
world = record { heap = []; remote = replies }

abbrev pub counted_world : World (List (Result Decoded) × ℕ)
counted_world = record { heap = []; remote = (replies, 0) }
