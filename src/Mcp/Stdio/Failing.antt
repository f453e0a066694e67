-- ===== src/Mcp/Stdio/Failing.antt =====
-- How `rpc` of pkg/mcp/stdio_client.go fails.
use mathlib.Core.Path.{subst}
use mcp_adapter_engram.Base.{
  ℕ, suc, String, ◌<>◌, ◌≡◌, refl, sym, ap, ◌∙◌, inl, inr, List, ◌∷◌, ◌++◌, Result, ok, err, Error,
  message, error_text, arith, Result-cases,
}
use mcp_adapter_engram.Heap.{Heap, Decoded}
use mcp_adapter_engram.Json.{Codec}
use mcp_adapter_engram.Mcp.Http.{Request}
use mcp_adapter_engram.Mcp.Stdio.{
  attempt, attempts, gave_up, Link, read_response, received, recover, rpc, Terminal,
}
use mcp_adapter_engram.Mcp.Stdio.Recording.{attempt-log, recording_by, recover-log}

abbrev pub writing : String → Result (List String) → String × Result (List String)
writing text r = (text, r)

-- A terminal that keeps what is written and with which result.
abbrev pub tracing : Terminal → Terminal
tracing t = recording_by writing t

module _ (t : Terminal) (json : Codec) (req_id : String) where
  -- How an attempt fails whose write has the given result: by this result, or after it by the reading
  -- of what was left in the reader and of what came.
  pub data IsFailure : Result (List String) → Error → Type 0 where
    write_fails : (x : Error) → IsFailure (err x) (message ("stdio write failed: " <> error_text x))
    read_fails :
        (pending arriving : List String) (s : (tracing t).State) (x : Error)
        → (read_response (tracing t) json req_id (pending ++ arriving) s).0.0 ≡ err x
        → IsFailure (ok arriving) (message ("stdio read failed: " <> error_text x))

  received_fails :
      (pending arriving : List String) (s : (tracing t).State) (l : Link (tracing t).State)
      (r : (Result Decoded × List String) × (tracing t).State) (e : Error)
      → (read_response (tracing t) json req_id (pending ++ arriving) s) ≡ r
      → (received (tracing t) json l r).0 ≡ err e
      → IsFailure (ok arriving) e
  received_fails pending arriving s l ((ok d, lines), s1) e q back = absurd (ground arith)
  received_fails pending arriving s l ((err x, lines), s1) e q back =
      let same : message ("stdio read failed: " <> error_text x) ≡ e = ground arith in
      subst (IsFailure (ok arriving)) same (read_fails pending arriving s x (ap (λ r. r.0.0) q))

  attempt-IsFailure :
      (body : String) (l : Link (tracing t).State) (e : Error)
      → (attempt (tracing t) json req_id body l).0 ≡ err e
      → IsFailure (t.write (body <> "\n") l.peer.0).0 e
  unfolding attempt
  attempt-IsFailure body l e back = elim (Result-cases (t.write (body <> "\n") l.peer.0).0) [
    | inl (lines, f) ↦ rw f (received_fails l.pending lines _ l _ e refl (rw f at (back)))
    | inr (x, f) ↦
        let same : message ("stdio write failed: " <> error_text x) ≡ e = ground arith in
        rw f (subst (IsFailure (err x)) same (write_fails x))
  ]

  -- A failing loop has written the request, with a result that made the attempt fail, and goes on.
  attempts_fails :
      (left : ℕ) (body : String) (last e : Error) (l : Link (tracing t).State)
      → (attempts (tracing t) json (suc left) req_id body last l).0 ≡ err e
      → (x : Error) × (next : Link (tracing t).State) × IsFailure
          (t.write (body <> "\n") l.peer.0).0
          x
        × (next.peer.1 ≡ (body <> "\n", (t.write (body <> "\n") l.peer.0).0) ∷ l.peer.1)
        × (attempts (tracing t) json (suc left) req_id body last l
            ≡ attempts (tracing t) json left req_id body x next)
  unfolding attempts
  attempts_fails left body last e l back =
      elim (Result-cases (attempt (tracing t) json req_id body l).0) [
        | inl (d, f) ↦ absurd (ground arith)
        | inr (x, f) ↦
            let l' = (attempt (tracing t) json req_id body l).1 in
            (
              x,
              recover (tracing t) json left l',
              attempt-IsFailure body l x f,
              recover-log writing t json left l' ∙ attempt-log writing t json req_id body l,
              rw (f, attempts) refl,
            )
      ]

-- Where a request that can be encoded fails, it has been written exactly three times with nothing else
-- in between, and its error is that of the last attempt: what made the third write fail, or, where
-- that one succeeded, the error of the reading that followed it.
pub rpc-IsFailure :
    (t : Terminal) (json : Codec) (h : Heap) (req : Request) (body : String)
    (l : Link (tracing t).State) (e : Error)
    → t.marshal_request h req ≡ ok body
    → (rpc (tracing t) json h req l).0 ≡ err e
    → (r1 r2 r3 : Result (List String)) × (x : Error) × ((rpc (tracing t) json h req l).1.peer.1
        ≡ (body <> "\n", r3) ∷ (body <> "\n", r2) ∷ (body <> "\n", r1) ∷ l.peer.1)
      × IsFailure t json req.id r3 x
      × (e ≡ message ("stdio rpc failed after 3 attempts: " <> error_text x))
unfolding rpc attempts
rpc-IsFailure t json h req body l e encoded back =
    let back1 : (attempts (tracing t) json 3 req.id body (message "") l).0 ≡ err e =
      rw encoded at (back) in
    let (x1, l1, why1, log1, go1) = attempts_fails t json req.id 2 body (message "") e l back1 in
    let (x2, l2, why2, log2, go2) =
      attempts_fails t json req.id 1 body x1 e l1 (ap (λ r. r.0) (sym go1) ∙ back1) in
    let back3 : (attempts (tracing t) json 1 req.id body x2 l2).0 ≡ err e =
      ap (λ r. r.0) (sym (go1 ∙ go2)) ∙ back1 in
    let (x3, l3, why3, log3, go3) = attempts_fails t json req.id 0 body x2 e l2 back3 in
    let log12 =
      log2 ∙ ap (λ w. writing (body <> "\n") (t.write (body <> "\n") l1.peer.0).0 ∷ w) log1 in
    let log =
      log3 ∙ ap (λ w. writing (body <> "\n") (t.write (body <> "\n") l2.peer.0).0 ∷ w) log12 in
    let all : rpc (tracing t) json h req l ≡ (err (gave_up t json x3), l3) =
      rw encoded (go1 ∙ go2 ∙ go3) in
    (_, _, _, x3, ap (λ r. r.1.peer.1) all ∙ log, why3, ground arith)
