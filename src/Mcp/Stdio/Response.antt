-- ===== src/Mcp/Stdio/Response.antt =====
-- Which line `readResponse` of pkg/mcp/stdio_client.go returns.
use mcp_adapter_engram.Base.{
  String, ◌≡◌, refl, ap, ◌∙◌, inl, inr, none, List, [], ◌∷◌, ◌++◌, ok, arith, Option-cases, All,
}
use mcp_adapter_engram.Heap.{Decoded}
use mcp_adapter_engram.Json.{Codec}
use mcp_adapter_engram.Mcp.Stdio.{answer, judge, read_response, Terminal}
use mcp_adapter_engram.Mcp.Stdio.Judging.{
  IsAnswer, IsPassed, Verdict-cases, judge-answer, IsAnswer-judge, IsPassed-judge, judge-IsPassed,
}

module _ (t : Terminal) (json : Codec) (req_id : String) where
  -- A response that the reader returns stands in the first line that answers the request, an object
  -- that is no notification and has the request's id, if this has one; each line before it is empty or
  -- an object that does not fit, and the lines behind it are left in the reader.
  pub read_response_sound :
      (lines rest : List String) (s s' : t.State) (d : Decoded)
      → read_response t json req_id lines s ≡ ((ok d, rest), s')
      → (before : List String) × (raw : String) × (lines ≡ before ++ raw ∷ rest)
        × All (IsPassed t json req_id) before
        × IsAnswer t json req_id raw d
  unfolding read_response
  read_response_sound [] rest s s' d e = elim (Option-cases (t.poll s).0) [
    | inl f ↦ absurd (ground arith)
    | inr (x, f) ↦ absurd (ground arith)
  ]
  read_response_sound (raw ∷ lines) rest s s' d e = elim (Option-cases (t.poll s).0) [
    | inr (x, f) ↦ absurd (ground arith)
    | inl f ↦ elim (Verdict-cases (judge t json req_id raw)) [
      | inl g ↦
          let after : read_response t json req_id lines (t.poll s).1 ≡ ((ok d, rest), s') =
            ground arith in
          let (before, found, split, passed, fits) =
            read_response_sound lines rest (t.poll s).1 s' d after in
          (
            raw ∷ before,
            found,
            ap (λ l. raw ∷ l) split,
            (judge-IsPassed t json req_id raw g, passed),
            fits,
          )
      | inr (inl (d', g)) ↦
          let left : lines ≡ rest = ground arith in
          let same : d' ≡ d = ground arith in
          (
            [],
            raw,
            ap (λ l. raw ∷ l) left,
            tt,
            judge-answer t json req_id raw d (g ∙ ap answer same),
          )
      | inr (inr (x, g)) ↦ absurd (ground arith)
    ]
  ]

  module _ (patient : (s : t.State) → (t.poll s).0 ≡ none) where
    -- Whatever it passes over, the reader comes to the answer and leaves what follows it: where the
    -- context is never done, lines before it neither stop the reader nor are taken for the answer.
    pub read_response_finds :
        (before after : List String) (raw : String) (d : Decoded) (s : t.State)
        → All (IsPassed t json req_id) before
        → IsAnswer t json req_id raw d
        → (read_response t json req_id (before ++ raw ∷ after) s).0 ≡ (ok d, after)
    unfolding read_response
    read_response_finds [] after raw d s q a =
        rw (patient s, IsAnswer-judge t json req_id raw d a) refl
    read_response_finds (first ∷ before) after raw d s q a =
        rw (patient s, IsPassed-judge t json req_id first q.0)
          (read_response_finds before after raw d (t.poll s).1 q.1 a)
