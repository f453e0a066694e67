-- ===== src/Tests/Http.antt =====
-- The HTTP client of pkg/mcp/http_client.go, over a server that answers everything alike.
use mcp_adapter_engram.Base.{
  ℕ, String, ◌≡◌, refl, none, some, List, [], ◌∷◌, lookup, ok, if◌then◌else◌, or_else,
}
use text.Mathlib.Text.{◌==◌ as str_eq}
use mcp_adapter_engram.Text.{cut_prefix, has_prefix, trim_right_by, trim_space}
use mcp_adapter_engram.Mcp.Sse.{decode_sse_frames, classify}
use mcp_adapter_engram.Mcp.Sse.Decoding.{events, frames_of, decode_sse_frames-events}
use mcp_adapter_engram.Mcp.Http.{client_headers, http_client, HttpClient, Transport}
use mcp_adapter_engram.Mcp.Http.Headers.{default_header, lookup-client_headers}
use mcp_adapter_engram.Mcp.Http.Requests.{http_client-SendsOne, recording, SendsOne}
use mcp_adapter_engram.Tests.Example.{codec}

abbrev lines : List String
lines = ": hello" ∷ "id: 7" ∷ "data: {\"a\":" ∷ "data: 1}" ∷ "" ∷ "data: last" ∷ "" ∷ []

-- Data over several lines is one event.
two_events :
    events "" "" lines
    ≡ record { id = "7"; text = "{\"a\":\n1}" } ∷ record { id = ""; text = "last" } ∷ []
unfolding events classify has_prefix cut_prefix trim_right_by trim_space
two_events = refl

decode_sse_frames-events_example :
    decode_sse_frames codec (record { lines = lines; failure = none })
    ≡ ok (frames_of codec (events "" "" lines))
decode_sse_frames-events_example = decode_sse_frames-events codec lines

-- A static header goes before one from the secrets.
lookup-client_headers_example :
    lookup "Accept" (client_headers (("Accept", "a") ∷ []) (("Accept", "b") ∷ []) "sid") ≡ (
      if str_eq "Mcp-Session-Id" "Accept"
      then some "sid"
      else or_else
          (lookup "Accept" (("Accept", "b") ∷ []))
          (or_else (lookup "Accept" (("Accept", "a") ∷ [])) (default_header "Accept")))
unfolding lookup
lookup-client_headers_example =
    lookup-client_headers "Accept" (("Accept", "a") ∷ []) (("Accept", "b") ∷ []) "sid" (refl, tt)
      (refl, tt)

abbrev pub transport : Transport
transport = record {
  State = ℕ;
  new_id = λ s. ("id", s);
  marshal_request = λ h req. ok req.method;
  exchange = λ url headers body s. (
    ok (record {
      status = 200;
      content_type = "application/json";
      text = ok "{}";
      body = record { lines = []; failure = none };
    }),
    s,
  );
  pause = λ d s. (none, s);
  decimal = λ n. "200";
}

abbrev client : HttpClient
client = record { base_url = "http://server"; headers = []; session_id = "sid" }

http_client-SendsOne_example :
    SendsOne transport codec client
      (0, [])
      ((http_client (recording transport) codec client).initialize [] none (0, []))
    × SendsOne transport codec client
        (0, [])
        ((http_client (recording transport) codec client).list_tools (0, []))
    × SendsOne transport codec client
        (0, [])
        ((http_client (recording transport) codec client).call_tool [] "search" [] (0, []))
    × SendsOne transport codec client
        (0, [])
        ((http_client (recording transport) codec client).list_resources (0, []))
    × SendsOne transport codec client
        (0, [])
        ((http_client (recording transport) codec client).read_resource "" (0, []))
    × SendsOne transport codec client
        (0, [])
        ((http_client (recording transport) codec client).get_prompt "p" (0, []))
http_client-SendsOne_example =
    http_client-SendsOne transport codec client [] none "search" "" "p" [] (0, [])
