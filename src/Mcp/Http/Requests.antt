-- ===== src/Mcp/Http/Requests.antt =====
-- Which requests the client of pkg/mcp/http_client.go sends.
use mcp_adapter_engram.Base.{
  String, ◌≡◌, refl, ◌⊎◌, inl, inr, false, Option, List, [], ◌∷◌, Map, Result, ok, err, Bool-cases,
  Result-cases, is_ok,
}
use mcp_adapter_engram.Text.{is_empty}
use mcp_adapter_engram.Heap.{Value, Heap, Decoded}
use mcp_adapter_engram.Json.{Codec}
use mcp_adapter_engram.Mcp.Http.{
  call, call_named, http_client, HttpClient, Params, post_jsonrpc_maybe_stream, send, Transport,
}

-- A transport that keeps what is sent through it, the last request first.
abbrev pub recording : Transport → Transport
recording t = record {
  State = t.State × List (String × (Map String × String));
  new_id = λ s. let (id, s1) = t.new_id s.0 in (id, (s1, s.1));
  marshal_request = t.marshal_request;
  exchange = λ url headers body s.
      let (r, s1) = t.exchange url headers body s.0 in (r, (s1, (url, (headers, body)) ∷ s.1));
  pause = λ d s. let (e, s1) = t.pause d s.0 in (e, (s1, s.1));
  decimal = t.decimal;
}

module _ (t : Transport) (json : Codec) (c : HttpClient) where
  -- Nothing was sent and an error came back, or one request was, to the client's URL with its
  -- headers.
  abbrev pub SendsOne :
      (t.State × List (String × (Map String × String)))
      → Result Decoded × (t.State × List (String × (Map String × String)))
      → Type 0
  SendsOne s r =
      ((r.1.1 ≡ s.1) × (is_ok r.0 ≡ false))
      ⊎ ((body : String) × (r.1.1 ≡ (c.base_url, (c.headers, body)) ∷ s.1))

  pub send-SendsOne :
      (body : Result String) (s : (recording t).State)
      → SendsOne s (send (recording t) json c body s)
  unfolding send
  send-SendsOne (err e) s = inl (refl, refl)
  send-SendsOne (ok body) s =
      elim (Result-cases ((recording t).exchange c.base_url c.headers body s).0) [
        | inl (reply, f) ↦ rw (f, send) (inr (body, refl))
        | inr (x, f) ↦ rw (f, send) (inr (body, refl))
      ]

  pub call-SendsOne :
      (h : Heap) (method : String) (params : Params) (s : (recording t).State)
      → SendsOne s (call (recording t) json c h method params s)
  unfolding call post_jsonrpc_maybe_stream
  call-SendsOne h method given s = send-SendsOne _ _

  call_named-SendsOne :
      (name missing : String) (h : Heap) (method : String) (params : Params)
      (s : (recording t).State)
      → SendsOne s (call_named (recording t) json c name missing h method params s)
  unfolding call_named
  call_named-SendsOne name missing h method given s = elim (Bool-cases (is_empty name)) [
    | inl b ↦ rw b (inl (refl, refl))
    | inr b ↦ rw b (call-SendsOne h method given s)
  ]

  -- Every operation that returns a result (all but the notification) sends one POST, to the client's
  -- URL with its headers, or it sends nothing and fails.
  pub http_client-SendsOne :
      (h : Heap) (capabilities : Option (Map Value)) (tool uri name : String) (args : Map Value)
      (s : (recording t).State)
      → SendsOne s ((http_client (recording t) json c).initialize h capabilities s)
        × SendsOne s ((http_client (recording t) json c).list_tools s)
        × SendsOne s ((http_client (recording t) json c).call_tool h tool args s)
        × SendsOne s ((http_client (recording t) json c).list_resources s)
        × SendsOne s ((http_client (recording t) json c).read_resource uri s)
        × SendsOne s ((http_client (recording t) json c).get_prompt name s)
  http_client-SendsOne h capabilities tool uri name args s = (
    call-SendsOne h _ _ s,
    call-SendsOne [] _ _ s,
    call_named-SendsOne tool _ h _ _ s,
    call-SendsOne [] _ _ s,
    call_named-SendsOne uri _ [] _ _ s,
    call_named-SendsOne name _ [] _ _ s,
  )
