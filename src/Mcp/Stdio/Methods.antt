-- ===== src/Mcp/Stdio/Methods.antt =====
-- pkg/mcp/stdio_client.go: the client over its loop of attempts.
use mcp_adapter_engram.Base.{
  String, ◌<>◌, ◌||◌, Option, none, some, List, [], ◌++◌, if◌then◌else◌, Result, ok, err, Error,
  message,
}
use mcp_adapter_engram.Text.{is_empty, trim_space}
use mcp_adapter_engram.Heap.{Heap, Decoded}
use mcp_adapter_engram.Json.{Codec}
use mcp_adapter_engram.Mcp.Client.{Client}
use mcp_adapter_engram.Mcp.Http.{
  build_init_params, name_params, no_params, Params, Request, tool_params, uri_params,
}
use mcp_adapter_engram.Mcp.Stdio.{attach, Link, rpc, Terminal}

pub record StdioOptions : Type 0 where
  pub namespace : String
  pub pod_name : String
  pub container : String

module _ (t : Terminal) (json : Codec) where
  abbrev opened : Option Error × Link t.State → Result (Link t.State) × t.State
  opened (none, l) = (ok l, l.peer)
  opened (some e, l) = (err e, l.peer)

  abbrev connect : Option Error × t.State → Result (Link t.State) × t.State
  connect (some e, s) = (err e, s)
  connect (none, s) = opened (attach t json (record { pending = []; peer = s }))

  -- The link of the new client; the options go into the terminal's requests.
  unfoldable pub new_stdio_client : StdioOptions → t.State → Result (Link t.State) × t.State
  new_stdio_client opts s =
      if is_empty opts.namespace || is_empty opts.pod_name || is_empty opts.container
      then (err (message "namespace, podName and container are required"), s)
      else connect (t.configure s)

  abbrev pub stdio_request : String → String → Params → Request
  stdio_request id method given = record {
    jsonrpc = "2.0";
    id = id;
    method = method;
    params = given;
  }

  -- A request under a new id.
  unfoldable pub stdio_call : Heap → String → Params → Link t.State → Result Decoded × Link t.State
  stdio_call h method given l =
      let (id, s) = t.new_id l.peer in
      rpc t json h (stdio_request id method given) (record l { peer = s })

  unfoldable pub stdio_call_named :
      String → String → Heap → String → Params → Link t.State → Result Decoded × Link t.State
  stdio_call_named name missing h method given l =
      if is_empty (trim_space name) then (err (message missing), l) else stdio_call h method given l

  abbrev notified : Link t.State → Result (List String) × t.State → Option Error × Link t.State
  notified l (ok lines, s) = (none, record { pending = l.pending ++ lines; peer = s })
  notified l (err e, s) = (some e, record l { peer = s })

  abbrev notify_body : Result String → Link t.State → Option Error × Link t.State
  notify_body (err e) l = (some e, l)
  notify_body (ok body) l = notified l (t.write (body <> "\n") l.peer)

  unfoldable pub stdio_notify_initialized : Link t.State → Option Error × Link t.State
  stdio_notify_initialized l =
      notify_body (t.marshal_request [] (stdio_request "" "notifications/initialized" no_params)) l

  abbrev paused : Link t.State → Option Error × t.State → Option Error × Link t.State
  paused l (e, s) = (e, record l { peer = s })

  -- The client that the adapter uses.
  abbrev pub stdio_client : Client
  stdio_client = record {
    State = Link t.State;
    initialize = λ h capabilities l. stdio_call h "initialize" (build_init_params capabilities) l;
    notify_initialized = stdio_notify_initialized;
    list_tools = λ l. stdio_call [] "tools/list" no_params l;
    call_tool = λ h tool args l.
        stdio_call_named tool "tool is required" h "tools/call" (tool_params tool args) l;
    list_resources = λ l. stdio_call [] "resources/list" no_params l;
    read_resource =
        λ uri l. stdio_call_named uri "uri is required" [] "resources/read" (uri_params uri) l;
    get_prompt =
        λ name l. stdio_call_named name "name is required" [] "prompts/get" (name_params name) l;
    pause = λ d l. paused l (t.pause d l.peer);
  }
