-- ===== src/Mcp/Stdio/Requests.antt =====
-- Which requests the client of pkg/mcp/stdio_client.go makes.
use mcp_adapter_engram.Base.{
  String, ◌<>◌, ◌≡◌, refl, ◌⊎◌, inl, inr, false, Option, some, List, ◌∷◌, Map, Result, Bool-cases,
  Result-cases, is_ok, [], Error,
}
use mcp_adapter_engram.Text.{is_empty, trim_space}
use mcp_adapter_engram.Heap.{Value, Heap, Decoded}
use mcp_adapter_engram.Json.{Codec}
use mcp_adapter_engram.Mcp.Http.{no_params, Params}
use mcp_adapter_engram.Mcp.Stdio.{Link, rpc, Terminal}
use mcp_adapter_engram.Mcp.Stdio.Recording.{recording}
use mcp_adapter_engram.Mcp.Stdio.Attempts.{Attempted, rpc-Attempted}
use mcp_adapter_engram.Mcp.Stdio.Methods.{
  stdio_call, stdio_call_named, stdio_client, stdio_notify_initialized, stdio_request,
}

module _ (t : Terminal) (json : Codec) where
  -- Nothing was written and an error came back, or a request was attempted, under a new id.
  abbrev pub Asks : Link (recording t).State → Result Decoded × Link (recording t).State → Type 0
  Asks l r =
      ((r.1.peer.1 ≡ l.peer.1) × (is_ok r.0 ≡ false))
      ⊎ ((body : String) × Attempted t json 3 (t.new_id l.peer.0).0 body l.peer.1 r)

  stdio_call-Asks :
      (h : Heap) (method : String) (params : Params) (l : Link (recording t).State)
      → Asks l (stdio_call (recording t) json h method params l)
  unfolding stdio_call rpc
  stdio_call-Asks h method given l =
      let req = stdio_request (recording t) json (t.new_id l.peer.0).0 method given in
      elim (Result-cases (t.marshal_request h req)) [
        | inr (x, f) ↦ rw f (inl (refl, refl))
        | inl (body, f) ↦
            let next = record l { peer = ((t.new_id l.peer.0).1, l.peer.1) } in
            inr (body, rpc-Attempted t json h req body next f)
      ]

  stdio_call_named-Asks :
      (name missing : String) (h : Heap) (method : String) (params : Params)
      (l : Link (recording t).State)
      → Asks l (stdio_call_named (recording t) json name missing h method params l)
  unfolding stdio_call_named
  stdio_call_named-Asks name missing h method given l =
      elim (Bool-cases (is_empty (trim_space name))) [
        | inl b ↦ rw b (inl (refl, refl))
        | inr b ↦ rw b (stdio_call-Asks h method given l)
      ]

  -- What a notification writes: itself once, or nothing with an error.
  abbrev pub Notifies : List String → Option Error × Link (recording t).State → Type 0
  Notifies log r =
      ((x : Error) × (r.0 ≡ some x) × (r.1.peer.1 ≡ log))
      ⊎ ((body : String) × (r.1.peer.1 ≡ (body <> "\n") ∷ log))

  stdio_notify_initialized-Notifies :
      (l : Link (recording t).State)
      → Notifies l.peer.1 (stdio_notify_initialized (recording t) json l)
  unfolding stdio_notify_initialized
  stdio_notify_initialized-Notifies l =
      let req = stdio_request (recording t) json "" "notifications/initialized" no_params in
      elim (Result-cases (t.marshal_request [] req)) [
        | inr (x, f) ↦ rw f (inl (x, refl, refl))
        | inl (body, f) ↦ elim (Result-cases (t.write (body <> "\n") l.peer.0).0) [
          | inr (x, g) ↦ rw (f, g) (inr (body, refl))
          | inl (lines, g) ↦ rw (f, g) (inr (body, refl))
        ]
      ]

  -- Every operation of the stdio client that returns a result draws a new id and attempts one request
  -- under it, at most three times, or it writes nothing and fails; the notification is written once or,
  -- with an error, not at all.
  pub stdio_client-Asks :
      (h : Heap) (capabilities : Option (Map Value)) (tool uri name : String) (args : Map Value)
      (l : Link (recording t).State)
      → Asks l ((stdio_client (recording t) json).initialize h capabilities l)
        × Notifies l.peer.1 ((stdio_client (recording t) json).notify_initialized l)
        × Asks l ((stdio_client (recording t) json).list_tools l)
        × Asks l ((stdio_client (recording t) json).call_tool h tool args l)
        × Asks l ((stdio_client (recording t) json).list_resources l)
        × Asks l ((stdio_client (recording t) json).read_resource uri l)
        × Asks l ((stdio_client (recording t) json).get_prompt name l)
  stdio_client-Asks h capabilities tool uri name args l = (
    stdio_call-Asks h _ _ l,
    stdio_notify_initialized-Notifies l,
    stdio_call-Asks [] _ _ l,
    stdio_call_named-Asks tool _ h _ _ l,
    stdio_call-Asks [] _ _ l,
    stdio_call_named-Asks uri _ [] _ _ l,
    stdio_call_named-Asks name _ [] _ _ l,
  )
