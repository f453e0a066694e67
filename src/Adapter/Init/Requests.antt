-- ===== src/Adapter/Init/Requests.antt =====
-- What the start over HTTP of pkg/adapter/handler.go sends.
use mcp_adapter_engram.Base.{
  ℕ, ◌+◌, ◌≤◌, String, ◌≡◌, refl, sym, ap, ◌∙◌, inl, inr, List, [], ◌∷◌, ◌++◌, ◌==◌, length,
  length-append, All, All-append, Map, copy_into, ℤ, pos, leb_ℤ, Result, ok, err, arith, Bool-cases,
  Result-cases,
}
use mcp_adapter_engram.Text.{is_empty, trim_space, trim_right_by}
use mcp_adapter_engram.Heap.{Heap, Decoded}
use mcp_adapter_engram.Json.{Codec}
use mcp_adapter_engram.Config.{Config, McpInitConfig}
use mcp_adapter_engram.Mcp.Http.{
  client_headers, error_of, http_client, HttpClient, new_http_client, no_params,
  post_jsonrpc_maybe_stream, request, Transport,
}
use mcp_adapter_engram.Mcp.Http.Requests.{call-SendsOne, recording, send-SendsOne, SendsOne}
use mcp_adapter_engram.Adapter.Secrets.{load_headers_from_secret, System}
use mcp_adapter_engram.Adapter.Init.{
  handshake, init_http, post_init_delay, Start, started, stopped, with_client,
}

-- At most so many requests more, each to the client's URL with its headers.
abbrev pub Grows :
    HttpClient
    → ℕ
    → List (String × (Map String × String))
    → List (String × (Map String × String))
    → Type 0
Grows c most before after =
    (new : List (String × (Map String × String))) × (after ≡ new ++ before)
    × (length new ≤ most)
    × All (λ sent. (sent.0 ≡ c.base_url) × (sent.1.0 ≡ c.headers)) new

append_assoc_of : {A : Type 0} (xs ys zs : List A) → (xs ++ ys) ++ zs ≡ xs ++ (ys ++ zs)
append_assoc_of [] ys zs = refl
append_assoc_of (x ∷ xs) ys zs = ap (λ l. x ∷ l) (append_assoc_of xs ys zs)

-- The clock keeps no requests.
abbrev pub slept :
    (t : Transport) → (ℤ → t.State → t.State) → ℤ → (recording t).State → (recording t).State
slept t sleep d s = (sleep d s.0, s.1)

module _ (t : Transport) (json : Codec) (c : HttpClient) where
  Grows-trans :
      (m n : ℕ) (a b d : List (String × (Map String × String)))
      → Grows c m a b
      → Grows c n b d
      → Grows c (m + n) a d
  Grows-trans m n a b d (new, e, le, own) (new', e', le', own') = (
    new' ++ new,
    e' ∙ (ap (λ l. new' ++ l) e ∙ sym (append_assoc_of new' new a)),
    omega (arith, length-append new' new, le, le'),
    All-append _ new' new own' own,
  )

  SendsOne-Grows :
      (s : (recording t).State) (r : Result Decoded × (recording t).State)
      → SendsOne t json c s r
      → Grows c 1 s.1 r.1.1
  SendsOne-Grows s r (inl (same, failed)) = ([], same, omega arith, tt)
  SendsOne-Grows s r (inr (body, grown)) =
      ((c.base_url, (c.headers, body)) ∷ [], grown, omega arith, ((refl, refl), tt))

  error_of-keeps :
      (r : Result Decoded × (recording t).State) → (error_of (recording t) json c r).1 ≡ r.1
  error_of-keeps (ok d, s) = refl
  error_of-keeps (err e, s) = refl

  post_init_delay-keeps :
      (sleep : ℤ → t.State → t.State) (mcp : McpInitConfig) (s : (recording t).State)
      → (post_init_delay (http_client (recording t) json c) (slept t sleep) mcp s).1 ≡ s.1
  unfolding post_init_delay
  post_init_delay-keeps sleep mcp s = elim (Bool-cases (leb_ℤ mcp.post_init_delay (pos 0))) [
    | inl b ↦ rw b refl
    | inr b ↦ rw b refl
  ]

  notify_initialized-Grows :
      (s : (recording t).State)
      → Grows c 1 s.1 ((http_client (recording t) json c).notify_initialized s).1.1
  unfolding post_jsonrpc_maybe_stream
  notify_initialized-Grows s =
      let req = request t json c "" "notifications/initialized" no_params in
      let r = post_jsonrpc_maybe_stream (recording t) json c [] req s in
      rw (error_of-keeps r)
        (SendsOne-Grows s r (send-SendsOne t json c (t.marshal_request [] req) s))

  handshake-Grows :
      (sleep : ℤ → t.State → t.State) (h : Heap) (mcp : McpInitConfig) (s : (recording t).State)
      → Grows c 3 s.1 (handshake (http_client (recording t) json c) (slept t sleep) h mcp s).1.1
  unfolding handshake
  handshake-Grows sleep h mcp s =
      let client = http_client (recording t) json c in
      let first = client.initialize h mcp.init_client_capabilities s in
      let second = (client.notify_initialized first.1).1 in
      let third = client.list_tools second in
      let sent_first = SendsOne-Grows s first (call-SendsOne t json c h _ _ s) in
      let sent_third = SendsOne-Grows second third (call-SendsOne t json c [] _ _ second) in
      let two = Grows-trans 1 1 _ _ _ sent_first (notify_initialized-Grows first.1) in
      elim (Result-cases first.0) [
        | inr (x, f) ↦
            let (new, grown, le, own) = sent_first in
            rw (f, handshake) (new, grown, omega (arith, le), own)
        | inl (d, f) ↦
            rw (f, handshake)
              (rw (post_init_delay-keeps sleep mcp third.1) (Grows-trans 2 1 _ _ _ two sent_third))
      ]

module _ (t : Transport) (json : Codec) (sleep : ℤ → t.State → t.State) (sys : System)
    (cfg : Config) (h : Heap) where
  -- What was sent by a start.
  abbrev pub Sends : (recording t).State → Start (recording t).State (recording t).State → Type 0
  Sends s (stopped x s') = s'.1 ≡ s.1
  Sends s (started x e s') =
      (c : HttpClient) × (secrets : Map String) × (id : String) × (load_headers_from_secret sys
          cfg.server.headers_from_secret
        ≡ ok secrets)
      × (c.base_url ≡ trim_right_by (λ c. c == b'/') cfg.server.base_url)
      × (c.headers ≡ client_headers secrets (copy_into [] cfg.server.headers) id)
      × Grows c 3 s.1 s'.1

  -- A start over HTTP that stops before there is a client, for want of a URL or of a header's secret,
  -- has sent nothing; any other sends at most three requests, all to the configured URL, with the
  -- headers that the secrets and the configuration give.
  pub init_http-Sends :
      (s : (recording t).State) → Sends s (init_http (recording t) json (slept t sleep) sys cfg h s)
  unfolding init_http new_http_client with_client
  init_http-Sends s = elim (Bool-cases (is_empty (trim_space cfg.server.base_url))) [
    | inl y ↦ rw y refl
    | inr n ↦ elim (Result-cases (load_headers_from_secret sys cfg.server.headers_from_secret)) [
      | inr (x, f) ↦ rw (n, f) refl
      | inl (secrets, f) ↦ elim (Bool-cases (is_empty cfg.server.base_url)) [
        | inl y ↦ rw (n, f, y) refl
        | inr k ↦
            let id = (t.new_id s.0).0 in
            let c : HttpClient = record {
              base_url = trim_right_by (λ c. c == b'/') cfg.server.base_url;
              headers = client_headers secrets (copy_into [] cfg.server.headers) id;
              session_id = id;
            } in
            let s1 : (recording t).State = ((t.new_id s.0).1, s.1) in
            let sent = handshake-Grows t json c sleep h cfg.mcp s1 in
            elim (Result-cases
              (handshake (http_client (recording t) json c) (slept t sleep) h cfg.mcp s1).0) [
                | inl (u, g) ↦ rw (n, f, k) (rw g (c, secrets, id, f, refl, refl, sent))
                | inr (x, g) ↦ rw (n, f, k) (rw g (c, secrets, id, f, refl, refl, sent))
              ]
      ]
    ]
  ]
