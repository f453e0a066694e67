-- ===== src/Mcp/Stdio/Recording.antt =====
-- What an attempt of `rpc` of pkg/mcp/stdio_client.go writes to the pod.
use mcp_adapter_engram.Base.{
  ℕ, zero, suc, String, ◌<>◌, ◌≡◌, refl, ap, ◌∙◌, inl, inr, Option, none, List, [], ◌∷◌, ◌++◌,
  Result, ok, err, Error, arith, Option-cases, Result-cases, pos,
}
use mcp_adapter_engram.Heap.{Decoded}
use mcp_adapter_engram.Json.{Codec}
use mcp_adapter_engram.Mcp.Stdio.{
  attach, attempt, judge, Link, read_response, reattach, reattach_loop, received, recover, Terminal,
}
use mcp_adapter_engram.Mcp.Stdio.Judging.{IsAnswer, Verdict-cases}
use mcp_adapter_engram.Mcp.Stdio.Response.{read_response_sound}

-- A terminal that keeps a mark of each text and of the result of its writing, the last first.
abbrev pub recording_by : {E : Type 0} → (String → Result (List String) → E) → Terminal → Terminal
recording_by {E} mark t = record {
  State = t.State × List E;
  new_id = λ s. let (id, s1) = t.new_id s.0 in (id, (s1, s.1));
  marshal_request = t.marshal_request;
  open_streams = λ s. let (r, s1) = t.open_streams s.0 in (r, (s1, s.1));
  write = λ text s. let (r, s1) = t.write text s.0 in (r, (s1, mark text r ∷ s.1));
  poll = λ s. let (e, s1) = t.poll s.0 in (e, (s1, s.1));
  read_error = λ s. let (e, s1) = t.read_error s.0 in (e, (s1, s.1));
  pause = λ d s. let (e, s1) = t.pause d s.0 in (e, (s1, s.1));
  sleep = λ d s. (t.sleep d s.0, s.1);
  equals_float = t.equals_float;
  equals_number = t.equals_number;
  unmarshal_error = t.unmarshal_error;
  configure = λ s. let (e, s1) = t.configure s.0 in (e, (s1, s.1));
}

-- A terminal that keeps what is written.
abbrev pub recording : Terminal → Terminal
recording t = recording_by (λ text r. text) t

module _ {E : Type 0} (mark : String → Result (List String) → E) (t : Terminal) (json : Codec) where
  read_response-log :
      (req_id : String) (lines : List String) (s : (recording_by mark t).State)
      → (read_response (recording_by mark t) json req_id lines s).1.1 ≡ s.1
  unfolding read_response
  read_response-log req_id [] s = elim (Option-cases (t.poll s.0).0) [
    | inl f ↦ rw (f, read_response) refl
    | inr (x, f) ↦ rw (f, read_response) refl
  ]
  read_response-log req_id (raw ∷ lines) s = elim (Option-cases (t.poll s.0).0) [
    | inr (x, f) ↦ rw (f, read_response) refl
    | inl f ↦ elim (Verdict-cases (judge (recording_by mark t) json req_id raw)) [
      | inl g ↦ rw (f, g, read_response) (read_response-log req_id lines _)
      | inr (inl (d, g)) ↦ rw (f, g, read_response) refl
      | inr (inr (x, g)) ↦ rw (f, g, read_response) refl
    ]
  ]

  attach-log :
      (l : Link (recording_by mark t).State)
      → (attach (recording_by mark t) json l).1.peer.1 ≡ l.peer.1
  unfolding attach
  attach-log l = elim (Result-cases (t.open_streams l.peer.0).0) [
    | inl (lines, f) ↦ rw f refl
    | inr (x, f) ↦ rw f refl
  ]

  reattach_loop-log :
      (left : ℕ) (last : Option Error) (l : Link (recording_by mark t).State)
      → (reattach_loop (recording_by mark t) json left last l).1.peer.1 ≡ l.peer.1
  unfolding reattach_loop
  reattach_loop-log zero last l = refl
  reattach_loop-log (suc left) last l =
      elim (Option-cases (attach (recording_by mark t) json l).0) [
        | inl f ↦ rw (f, reattach_loop) (attach-log l)
        | inr (x, f) ↦
            elim (Option-cases
              ((recording_by mark t).pause (pos 300_000_000)
                (attach (recording_by mark t) json l).1.peer).0) [
                  | inl g ↦ rw (f, g, reattach_loop) (reattach_loop-log left _ _ ∙ attach-log l)
                  | inr (y, g) ↦ rw (f, g, reattach_loop) (attach-log l)
                ]
      ]

  pub recover-log :
      (left : ℕ) (l : Link (recording_by mark t).State)
      → (recover (recording_by mark t) json left l).peer.1 ≡ l.peer.1
  unfolding recover reattach
  recover-log zero l = reattach_loop-log 3 none l
  recover-log (suc left) l = reattach_loop-log 3 none l

  received-peer :
      (l : Link (recording_by mark t).State)
      (r : (Result Decoded × List String) × (recording_by mark t).State)
      → (received (recording_by mark t) json l r).1.peer ≡ r.1
  received-peer l ((ok d, lines), s) = refl
  received-peer l ((err e, lines), s) = refl

  -- An attempt writes the request once, and what it returns answers it.
  pub attempt-log :
      (req_id body : String) (l : Link (recording_by mark t).State)
      → (attempt (recording_by mark t) json req_id body l).1.peer.1
        ≡ mark (body <> "\n") (t.write (body <> "\n") l.peer.0).0 ∷ l.peer.1
  unfolding attempt
  attempt-log req_id body l = elim (Result-cases (t.write (body <> "\n") l.peer.0).0) [
    | inl (lines, f) ↦
        rw f (ap (λ s. s.1) (received-peer l _) ∙ read_response-log req_id (l.pending ++ lines) _)
    | inr (x, f) ↦ rw f refl
  ]

  received-ok :
      (l : Link (recording_by mark t).State)
      (r : (Result Decoded × List String) × (recording_by mark t).State) (d : Decoded)
      → (received (recording_by mark t) json l r).0 ≡ ok d
      → r ≡ ((ok d, r.0.1), r.1)
  received-ok l ((ok d', lines), s) d e = ap (λ x. ((x, lines), s)) e
  received-ok l ((err x, lines), s) d e = absurd (ground arith)

  pub attempt-IsAnswer :
      (req_id body : String) (l : Link (recording_by mark t).State) (d : Decoded)
      → (attempt (recording_by mark t) json req_id body l).0 ≡ ok d
      → (raw : String) × IsAnswer (recording_by mark t) json req_id raw d
  unfolding attempt
  attempt-IsAnswer req_id body l d e = elim (Result-cases (t.write (body <> "\n") l.peer.0).0) [
    | inl (lines, f) ↦
        let reply =
          read_response (recording_by mark t) json req_id (l.pending ++ lines)
            ((t.write (body <> "\n") l.peer.0).1, mark (body <> "\n") (ok lines) ∷ l.peer.1) in
        let back : (received (recording_by mark t) json l reply).0 ≡ ok d = rw f at e in
        let (before, raw, split, passed, fits) =
          read_response_sound (recording_by mark t) json req_id (l.pending ++ lines) _ _ _ d
            (received-ok l reply d back) in
        (raw, fits)
    | inr (x, f) ↦ absurd (ground arith)
  ]
