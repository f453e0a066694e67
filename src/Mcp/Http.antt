-- ===== src/Mcp/Http.antt =====
-- pkg/mcp/http_client.go, and the requests of pkg/mcp/jsonrpc.go and pkg/mcp/client.go.
pub mod Headers
pub mod Requests
use mcp_adapter_engram.Base.{
  ℕ, ◌+◌, String, ◌<>◌, Bool, true, false, ◌||◌, ◌&&◌, not, Option, none, some, List, [], ◌∷◌, ◌++◌,
  ◌==◌, leb, ltb, length, if◌then◌else◌, Map, insert, copy_into, ℤ, Result, ok, err, Error, message,
}
use mcp_adapter_engram.Text.{is_empty, trim_space, trim_right_by, has_prefix}
use mcp_adapter_engram.Heap.{Value, nil, str, list, Object, elems, Heap, Decoded}
use mcp_adapter_engram.Json.{Codec}
use mcp_adapter_engram.Mcp.Client.{Client}
use mcp_adapter_engram.Mcp.Sse.{Body, decode_sse_frames, Frame, json_frame, text_frame}

-- The parameters of a request, with the values of the maps that the source writes out.
pub data Params : Type 0 where
  no_params : Params
  -- capabilities; the protocol's version; the client's name and version
  init_params : Map Value → String → String → String → Params
  tool_params : String → Map Value → Params
  uri_params : String → Params
  name_params : String → Params

-- `jsonRPCRequest`; an empty id is left out of the JSON.
pub record Request : Type 0 where
  pub jsonrpc : String
  pub id : String
  pub method : String
  pub params : Params

abbrev or_nothing : Option (Map Value) → Map Value
or_nothing none = []
or_nothing (some m) = m

unfoldable pub build_init_params : Option (Map Value) → Params
build_init_params capabilities =
    init_params (or_nothing capabilities) "2024-11-05" "bubustack-mcp-adapter" "1.0.0"

-- A reply of the server; `text` is what `io.ReadAll` reads of its body, and `body` its lines.
pub record Reply : Type 0 where
  pub status : ℕ
  pub content_type : String
  pub text : Result String
  pub body : Body

-- net/http, uuid and the clock, over their state.
pub record Transport : Type 1 where
  pub State : Type 0
  pub new_id : State → String × State
  -- `json.Marshal` of a request, which reads its maps and slices from the heap
  pub marshal_request : Heap → Request → Result String
  -- `http.NewRequestWithContext` and `client.Do`, with the URL, the headers and the body of a POST
  pub exchange : String → Map String → String → State → Result Reply × State
  pub pause : ℤ → State → Option Error × State
  -- `%d` of `fmt`
  pub decimal : ℕ → String

pub record HttpClient : Type 0 where
  pub base_url : String
  pub headers : Map String
  pub session_id : String

unfoldable pub client_headers : Map String → Map String → String → Map String
client_headers from_secrets static session_id = insert "Mcp-Session-Id" session_id (
    copy_into
      (copy_into
        (("Content-Type", "application/json")
          ∷ ("Accept", "application/json, text/event-stream")
          ∷ [])
        from_secrets)
      static)

-- With the new session's id.
unfoldable pub new_http_client : String → Map String → Map String → String → Result HttpClient
new_http_client base_url from_secrets static session_id =
    if is_empty base_url
    then err (message "baseURL is required")
    else ok (record {
      base_url = trim_right_by (λ c. c == b'/') base_url;
      headers = client_headers from_secrets static session_id;
      session_id = session_id;
    })

-- The frames of an event stream as one slice.
unfoldable pub alloc_frames : List Frame → ℕ → List Value × List Object
alloc_frames [] a = ([], [])
alloc_frames (text_frame text ∷ frames) a =
    let (vs, os) = alloc_frames frames a in (str text ∷ vs, os)
alloc_frames (json_frame d ∷ frames) a =
    let (v, os) = d a in let (vs, os') = alloc_frames frames (a + length os) in (v ∷ vs, os ++ os')

unfoldable pub frames_value : List Frame → Decoded
frames_value frames a =
    let (vs, os) = alloc_frames frames a in (list (a + length os), os ++ elems vs ∷ [])

abbrev frames_reply : Result (List Frame) → Result Decoded
frames_reply (ok frames) = ok (frames_value frames)
frames_reply (err e) = err e

abbrev or_text : String → Option Decoded → Decoded
or_text text (some d) = d
or_text text none = λ a. (str text, [])

-- `decodeJSONOrText`
unfoldable pub decode_json_or_text : Codec → Result String → Result Decoded
decode_json_or_text json (err e) = err e
decode_json_or_text json (ok text) =
    if is_empty text then ok (λ a. (nil, [])) else ok (or_text text (json.unmarshal text))

abbrev body_text : Result String → String
body_text (ok text) = text
body_text (err e) = ""

module _ (t : Transport) (json : Codec) (c : HttpClient) where
  abbrev status_error : ℕ → String → Error
  status_error status trimmed =
      if is_empty trimmed
      then message ("mcp http request failed: status " <> t.decimal status)
      else message ("mcp http request failed: status " <> (t.decimal status <> (": " <> trimmed)))

  -- What a reply comes to. Go reads what it can of the body of a failed request.
  unfoldable pub read_reply : Reply → Result Decoded
  read_reply reply =
      if ltb reply.status 200 || leb 300 reply.status
      then err (status_error reply.status (trim_space (body_text reply.text)))
      else if has_prefix reply.content_type "text/event-stream"
      then frames_reply (decode_sse_frames json reply.body)
      else decode_json_or_text json reply.text

  abbrev read_result : Result Reply × t.State → Result Decoded × t.State
  read_result (ok reply, s) = (read_reply reply, s)
  read_result (err e, s) = (err e, s)

  unfoldable pub send : Result String → t.State → Result Decoded × t.State
  send (err e) s = (err e, s)
  send (ok body) s = read_result (t.exchange c.base_url c.headers body s)

  -- `postJSONRPCMaybeStream`
  unfoldable pub post_jsonrpc_maybe_stream : Heap → Request → t.State → Result Decoded × t.State
  post_jsonrpc_maybe_stream h req s = send (t.marshal_request h req) s

  abbrev pub request : String → String → Params → Request
  request id method given = record { jsonrpc = "2.0"; id = id; method = method; params = given }

  -- A request under a new id.
  unfoldable pub call : Heap → String → Params → t.State → Result Decoded × t.State
  call h method given s =
      let (id, s1) = t.new_id s in post_jsonrpc_maybe_stream h (request id method given) s1

  unfoldable pub call_named :
      String → String → Heap → String → Params → t.State → Result Decoded × t.State
  call_named name missing h method given s =
      if is_empty name then (err (message missing), s) else call h method given s

  abbrev pub error_of : Result Decoded × t.State → Option Error × t.State
  error_of (ok d, s) = (none, s)
  error_of (err e, s) = (some e, s)

  -- The client that the adapter uses.
  abbrev pub http_client : Client
  http_client = record {
    State = t.State;
    initialize = λ h capabilities s. call h "initialize" (build_init_params capabilities) s;
    notify_initialized = λ s.
        error_of
          (post_jsonrpc_maybe_stream [] (request "" "notifications/initialized" no_params) s);
    list_tools = λ s. call [] "tools/list" no_params s;
    call_tool = λ h tool args s.
        call_named tool "tool is required" h "tools/call" (tool_params tool args) s;
    list_resources = λ s. call [] "resources/list" no_params s;
    read_resource =
        λ uri s. call_named uri "resource uri is required" [] "resources/read" (uri_params uri) s;
    get_prompt =
        λ name s. call_named name "prompt name is required" [] "prompts/get" (name_params name) s;
    pause = t.pause;
  }
