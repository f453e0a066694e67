-- ===== src/Mcp/Stdio/Judging.antt =====
-- What a line is to `readResponse` of pkg/mcp/stdio_client.go: an answer, or passed over.
use mcp_adapter_engram.Base.{
  String, ◌≡◌, ◌≢◌, refl, sym, ap, ◌∙◌, ◌⊎◌, inl, inr, true, false, none, some, Map, lookup, Error,
  arith, Bool-cases, Option-cases,
}
use mcp_adapter_engram.Text.{is_empty}
use mcp_adapter_engram.Heap.{Value, Decoded}
use mcp_adapter_engram.Json.{Codec}
use mcp_adapter_engram.Mcp.Stdio.{
  answer, invalid, judge, judge_object, jsonrpc_id_matches, line_of, matches, object_of, skipped,
  Terminal, Verdict,
}

-- No notification, and an id that matches that of the request, if this has one.
pub record Fits (t : Terminal) (json : Codec) (req_id : String) (msg : Map Value) : Type 0 where
  pub not_notification : (lookup "method" msg ≡ none) ⊎ (lookup "id" msg ≢ none)
  pub same_id :
      (is_empty req_id ≡ true)
      ⊎ ((id : Value) × (lookup "id" msg ≡ some id) × (jsonrpc_id_matches t json req_id id ≡ true))

-- What a response to a request is: a line with an object that fits it.
pub record IsAnswer (t : Terminal) (json : Codec) (req_id raw : String) (d : Decoded) : Type 0 where
  pub msg : Map Value
  pub not_empty : is_empty (line_of raw) ≡ false
  pub decodes : json.unmarshal (line_of raw) ≡ some d
  pub is_object : object_of d ≡ some msg
  pub fits : Fits t json req_id msg

-- What the reader passes over: an empty line, or an object that does not fit.
abbrev pub IsPassed : Terminal → Codec → String → String → Type 0
IsPassed t json req_id raw =
    (is_empty (line_of raw) ≡ true)
    ⊎ ((d : Decoded) × (msg : Map Value) × (json.unmarshal (line_of raw) ≡ some d)
        × (object_of d ≡ some msg)
        × (Fits t json req_id msg → ⊥))

pub Verdict-cases :
    (v : Verdict)
    → (v ≡ skipped) ⊎ ((d : Decoded) × (v ≡ answer d)) ⊎ ((e : Error) × (v ≡ invalid e))
Verdict-cases skipped = inl refl
Verdict-cases (answer d) = inr (inl (d, refl))
Verdict-cases (invalid e) = inr (inr (e, refl))

module _ (t : Terminal) (json : Codec) (req_id : String) where
  judge_object_sound :
      (d d' : Decoded) (msg : Map Value)
      → judge_object t json req_id d' msg ≡ answer d
      → Fits t json req_id msg × (d' ≡ d)
  unfolding judge_object
  judge_object_sound d d' msg e = elim (Option-cases (lookup "id" msg)) [
    | inl n ↦ elim (Option-cases (lookup "method" msg)) [
      | inl m ↦ (
        record {
          not_notification = inl m;
          same_id = inl (ground (arith, Bool-cases (is_empty req_id)));
        },
        ground (arith, Bool-cases (is_empty req_id)),
      )
      | inr (v, m) ↦ absurd (ground arith)
    ]
    | inr (id, n) ↦ (
      record {
        not_notification = inr (λ x. ground arith);
        same_id = elim (Bool-cases (is_empty req_id)) [
          | inl y ↦ inl y
          | inr k ↦ inr (
            id,
            n,
            ground (
              arith,
              Bool-cases (jsonrpc_id_matches t json req_id id),
              Option-cases (lookup "method" msg),
            ),
          )
        ];
      },
      ground (
        arith,
        Bool-cases (is_empty req_id),
        Bool-cases (jsonrpc_id_matches t json req_id id),
        Option-cases (lookup "method" msg),
      ),
    )
  ]

  judge_object_complete :
      (d : Decoded) (msg : Map Value)
      → Fits t json req_id msg
      → judge_object t json req_id d msg ≡ answer d
  unfolding judge_object
  judge_object_complete d msg f = elim f.same_id [
    | inl y ↦ elim f.not_notification [
      | inl m ↦ ground arith
      | inr k ↦ elim (Option-cases (lookup "id" msg)) [
        | inl n ↦ absurd (k n)
        | inr (id, n) ↦ ground (arith, Option-cases (lookup "method" msg))
      ]
    ]
    | inr (id, n, y) ↦
        ground (arith, Option-cases (lookup "method" msg), Bool-cases (is_empty req_id))
  ]

  judge_object-skipped :
      (d : Decoded) (msg : Map Value)
      → (Fits t json req_id msg → ⊥)
      → judge_object t json req_id d msg ≡ skipped
  unfolding judge_object
  judge_object-skipped d msg k = elim (Verdict-cases (judge_object t json req_id d msg)) [
    | inl e ↦ e
    | inr (inl (d', e)) ↦ absurd (k (judge_object_sound d' d msg e).0)
    | inr (inr (x, e)) ↦ absurd (
        ground (
          arith,
          Option-cases (lookup "id" msg),
          Option-cases (lookup "method" msg),
          Bool-cases (is_empty req_id),
          Bool-cases (matches t json req_id (lookup "id" msg)),
        ))
  ]

  pub judge-answer :
      (raw : String) (d : Decoded)
      → judge t json req_id raw ≡ answer d
      → IsAnswer t json req_id raw d
  unfolding judge
  judge-answer raw d e = elim (Option-cases (json.unmarshal (line_of raw))) [
    | inl n ↦ absurd (ground (arith, Bool-cases (is_empty (line_of raw))))
    | inr (d', f) ↦ elim (Option-cases (object_of d')) [
      | inl n ↦ absurd (ground (arith, Bool-cases (is_empty (line_of raw))))
      | inr (msg, g) ↦
          let nonempty : is_empty (line_of raw) ≡ false =
            ground (arith, Bool-cases (is_empty (line_of raw))) in
          let object : judge_object t json req_id d' msg ≡ answer d = ground arith in
          let (fits, same) = judge_object_sound d d' msg object in
          record {
            msg = msg;
            not_empty = nonempty;
            decodes = f ∙ ap some same;
            is_object = ap object_of (sym same) ∙ g;
            fits = fits;
          }
    ]
  ]

  pub IsAnswer-judge :
      (raw : String) (d : Decoded)
      → IsAnswer t json req_id raw d
      → judge t json req_id raw ≡ answer d
  unfolding judge
  IsAnswer-judge raw d a =
      rw (a.not_empty, a.decodes, a.is_object) (judge_object_complete d a.msg a.fits)

  pub IsPassed-judge :
      (raw : String) → IsPassed t json req_id raw → judge t json req_id raw ≡ skipped
  unfolding judge
  IsPassed-judge raw (inl y) = ground arith
  IsPassed-judge raw (inr (d, msg, f, g, k)) = elim (Bool-cases (is_empty (line_of raw))) [
    | inl y ↦ ground arith
    | inr n ↦ rw (n, f, g) (judge_object-skipped d msg k)
  ]

  pub judge-IsPassed :
      (raw : String) → judge t json req_id raw ≡ skipped → IsPassed t json req_id raw
  unfolding judge
  judge-IsPassed raw e = elim (Bool-cases (is_empty (line_of raw))) [
    | inl y ↦ inl y
    | inr n ↦ elim (Option-cases (json.unmarshal (line_of raw))) [
      | inl f ↦ absurd (ground arith)
      | inr (d, f) ↦ elim (Option-cases (object_of d)) [
        | inl g ↦ absurd (ground arith)
        | inr (msg, g) ↦
            let object : judge_object t json req_id d msg ≡ skipped = ground arith in
            inr (d, msg, f, g, λ fits. let whole = judge_object_complete d msg fits in ground arith)
      ]
    ]
  ]
