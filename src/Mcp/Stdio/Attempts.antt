-- ===== src/Mcp/Stdio/Attempts.antt =====
-- What `rpc` of pkg/mcp/stdio_client.go writes to the pod, and when it returns a response.
use mcp_adapter_engram.Base.{
  ℕ, zero, suc, ◌≤◌, String, ◌<>◌, ◌≡◌, refl, ap, ◌∙◌, ◌⊎◌, inl, inr, false, none, List, [], ◌∷◌,
  ◌++◌, Result, ok, Error, message, arith, Result-cases, All, is_ok,
}
use mcp_adapter_engram.Heap.{Heap, Decoded}
use mcp_adapter_engram.Json.{Codec}
use mcp_adapter_engram.Mcp.Http.{Request}
use mcp_adapter_engram.Mcp.Stdio.{attempt, attempts, Link, recover, rpc, Terminal, written}
use mcp_adapter_engram.Mcp.Stdio.Judging.{IsAnswer, IsPassed}
use mcp_adapter_engram.Mcp.Stdio.Response.{read_response_finds}
use mcp_adapter_engram.Mcp.Stdio.Recording.{attempt-IsAnswer, attempt-log, recording, recover-log}

abbrev pub times : ℕ → String → List String
times zero text = []
times (suc n) text = text ∷ times n text

times-snoc :
    (n : ℕ) (text : String) (log : List String)
    → times n text ++ text ∷ log ≡ text ∷ times n text ++ log
times-snoc zero text log = refl
times-snoc (suc n) text log = ap (λ l. text ∷ l) (times-snoc n text log)

module _ (t : Terminal) (json : Codec) where
  -- The outcome of `left` attempts: how often the request was written, and what came back.
  abbrev pub Attempted :
      ℕ → String → String → List String → Result Decoded × Link (recording t).State → Type 0
  Attempted left req_id body log r =
      (count : ℕ) × (count ≤ left)
      × (r.1.peer.1 ≡ times count (body <> "\n") ++ log)
      × (((d : Decoded) × (raw : String) × (r.0 ≡ ok d)
            × (1 ≤ count)
            × IsAnswer (recording t) json req_id raw d)
          ⊎ ((is_ok r.0 ≡ false) × (count ≡ left)))

  one_more :
      (left : ℕ) (req_id body : String) (log : List String) {log' : List String}
      (r : Result Decoded × Link (recording t).State)
      → log' ≡ (body <> "\n") ∷ log
      → Attempted left req_id body log' r
      → Attempted (suc left) req_id body log r
  one_more left req_id body log r e (count, le, written, outcome) = (
    suc count,
    ground arith,
    written ∙ ap (λ x. times count (body <> "\n") ++ x) e ∙ times-snoc count _ log,
    elim outcome [
      | inl (d, raw, back, at_least, fits) ↦ inl (d, raw, back, ground arith, fits)
      | inr (failed, all) ↦ inr (failed, ap suc all)
    ],
  )

  attempts-Attempted :
      (left : ℕ) (req_id body : String) (last : Error) (l : Link (recording t).State)
      → Attempted left req_id body l.peer.1 (attempts (recording t) json left req_id body last l)
  unfolding attempts
  attempts-Attempted zero req_id body last l = (0, ground arith, refl, inr (refl, refl))
  attempts-Attempted (suc left) req_id body last l =
      elim (Result-cases (attempt (recording t) json req_id body l).0) [
        | inl (d, f) ↦
            let (raw, fits) = attempt-IsAnswer (λ text r. text) t json req_id body l d f in
            rw (f, attempts)
              (
                1,
                ground arith,
                attempt-log (λ text r. text) t json req_id body l,
                inl (d, raw, refl, ground arith, fits),
              )
        | inr (e, f) ↦
            let l' = (attempt (recording t) json req_id body l).1 in
            rw (f, attempts)
              (one_more left req_id body l.peer.1
                (attempts (recording t) json left req_id body e
                  (recover (recording t) json left l'))
                (recover-log (λ text r. text) t json left l'
                  ∙ attempt-log (λ text r. text) t json req_id body l)
                (attempts-Attempted left req_id body e (recover (recording t) json left l')))
      ]

  -- An operation's request is written at most three times, with the same id and nothing else in
  -- between: once at least where a response comes back, which then is an answer to it, and three
  -- times where the operation fails.
  pub rpc-Attempted :
      (h : Heap) (req : Request) (body : String) (l : Link (recording t).State)
      → t.marshal_request h req ≡ ok body
      → Attempted 3 req.id body l.peer.1 (rpc (recording t) json h req l)
  unfolding rpc
  rpc-Attempted h req body l e = rw e (attempts-Attempted 3 req.id body _ l)

  attempt_answers :
      (patient : (s : t.State) → (t.poll s).0 ≡ none) (req_id body : String) (l : Link t.State)
      (arriving before after : List String) (raw : String) (d : Decoded)
      → (t.write (body <> "\n") l.peer).0 ≡ ok arriving
      → l.pending ++ arriving ≡ before ++ raw ∷ after
      → All (IsPassed t json req_id) before
      → IsAnswer t json req_id raw d
      → ((attempt t json req_id body l).0 ≡ ok d)
        × ((attempt t json req_id body l).1.pending ≡ after)
  unfolding attempt
  attempt_answers patient req_id body l arriving before after raw d w split passed fits =
      let found =
        read_response_finds t json req_id patient before after raw d
          (t.write (body <> "\n") l.peer).1 passed fits in
      rw (w, split) (rw found (refl, refl))

  attempts_answer :
      (left : ℕ) (req_id body : String) (last : Error) (l : Link t.State) (d : Decoded)
      (after : List String)
      → ((attempt t json req_id body l).0 ≡ ok d)
        × ((attempt t json req_id body l).1.pending ≡ after)
      → ((attempts t json (suc left) req_id body last l).0 ≡ ok d)
        × ((attempts t json (suc left) req_id body last l).1.pending ≡ after)
  unfolding attempts
  attempts_answer left req_id body last l d after (back, rest) = rw (back, attempts) (refl, rest)

  -- Where the write succeeds, an answer stands among the lines that waited or came, behind lines that
  -- are passed over, and the context is never done, the operation returns that answer, and what stands
  -- behind it waits in the reader.
  pub rpc_answers :
      (h : Heap) (req : Request) (body : String) (l : Link t.State)
      (patient : (s : t.State) → (t.poll s).0 ≡ none) (arriving before after : List String)
      (raw : String) (d : Decoded)
      → t.marshal_request h req ≡ ok body
      → (t.write (body <> "\n") l.peer).0 ≡ ok arriving
      → l.pending ++ arriving ≡ before ++ raw ∷ after
      → All (IsPassed t json req.id) before
      → IsAnswer t json req.id raw d
      → ((rpc t json h req l).0 ≡ ok d) × ((rpc t json h req l).1.pending ≡ after)
  unfolding rpc
  rpc_answers h req body l patient arriving before after raw d e w split passed fits = rw e (
      attempts_answer 2 req.id body (message "") l d after
        (attempt_answers patient req.id body l arriving before after raw d w split passed fits))
