-- ===== src/Mcp/Sse/Decoding.antt =====
-- The decoder of event streams of pkg/mcp/http_client.go against the events of a body.
use mathlib.Core.List.{append-nil, append_assoc}
use mcp_adapter_engram.Base.{
  ℕ, zero, suc, ◌-◌, ◌≤◌, ◌<◌, ◌≡◌, refl, sym, ap, ◌∙◌, ◌⊎◌, inl, inr, String, true, false, ◌&&◌,
  none, List, [], ◌∷◌, ◌++◌, Result, ok, err, eof, length, arith, if◌then◌else◌, Bool-cases,
}
use mcp_adapter_engram.Text.{is_empty}
use mcp_adapter_engram.Json.{Codec}
use mcp_adapter_engram.Mcp.Sse.{
  adds_data, blank, classify, decode_loop, decode_sse_frames, event, Event, Frame, frame_of,
  ignored, Line, next_event, sets_id, with_payload,
}

abbrev last_event : String → String → List Event
last_event id buf = if is_empty buf then [] else event id buf ∷ []

-- The events of a body, in one pass: a blank line ends one, if a line has set its id or added to
-- its data; what has data when the body ends is the last.
unfoldable pub events : String → String → List String → List Event
events id buf [] = last_event id buf
events id buf (raw ∷ lines) = elim (classify raw) [
  | blank ↦ elim (is_empty buf && is_empty id) [
    | true ↦ events id buf lines
    | false ↦ event id buf ∷ events "" "" lines
  ]
  | ignored ↦ events id buf lines
  | sets_id id' ↦ events id' buf lines
  | adds_data payload ↦ events id (with_payload buf payload) lines
]

abbrev pub frames_of : Codec → List Event → List Frame
frames_of json [] = []
frames_of json (ev ∷ evs) = frame_of json ev ++ frames_of json evs

-- One call of the decoder takes the first event, and at least one line where there is one.
record TakesFirst (id buf : String) (lines : List String) (r : Result Event × List String)
    : Type 0 where
  pub shorter : length r.1 ≤ length lines - 1
  pub first :
      ((r.0 ≡ err eof) × (events id buf lines ≡ []))
      ⊎ ((ev : Event) × (r.0 ≡ ok ev) × (events id buf lines ≡ ev ∷ events "" "" r.1))

Line-cases :
    (l : Line)
    → ((l ≡ blank) ⊎ (l ≡ ignored))
      ⊎ (((x : String) × (l ≡ sets_id x)) ⊎ ((x : String) × (l ≡ adds_data x)))
Line-cases blank = inl (inl refl)
Line-cases ignored = inl (inr refl)
Line-cases (sets_id x) = inr (inl (x, refl))
Line-cases (adds_data x) = inr (inr (x, refl))

-- A line that leaves the event open.
goes_on :
    (id buf id' buf' raw : String) (lines : List String) (r : Result Event × List String)
    → events id buf (raw ∷ lines) ≡ events id' buf' lines
    → TakesFirst id' buf' lines r
    → TakesFirst id buf (raw ∷ lines) r
goes_on id buf id' buf' raw lines r same ih = record {
  shorter = omega (arith, ih.shorter);
  first = elim ih.first [ inl (e, f) ↦ inl (e, same ∙ f) | inr (ev, e, f) ↦ inr (ev, e, same ∙ f) ];
}

next_event-TakesFirst :
    (id buf : String) (lines : List String) → TakesFirst id buf lines (next_event none id buf lines)
unfolding next_event events
next_event-TakesFirst id buf [] = elim (Bool-cases (is_empty buf)) [
  | inl b ↦ record { shorter = omega arith; first = inl (rw (b, next_event), rw (b, events)) }
  | inr b ↦ record {
    shorter = omega arith;
    first = inr (event id buf, rw (b, next_event), rw (b, events));
  }
]
next_event-TakesFirst id buf (raw ∷ lines) = elim (Line-cases (classify raw)) [
  | inl (inl l) ↦ elim (Bool-cases (is_empty buf && is_empty id)) [
    | inl b ↦
        rw (l, b, next_event)
          (goes_on id buf id buf raw lines _ (rw (l, b, events))
            (next_event-TakesFirst id buf lines))
    | inr b ↦
        rw (l, b, next_event)
          (record { shorter = omega arith; first = inr (event id buf, refl, rw (l, b, events)) })
  ]
  | inl (inr l) ↦
      rw (l, next_event)
        (goes_on id buf id buf raw lines _ (rw (l, events)) (next_event-TakesFirst id buf lines))
  | inr (inl (x, l)) ↦
      rw (l, next_event)
        (goes_on id buf x buf raw lines _ (rw (l, events)) (next_event-TakesFirst x buf lines))
  | inr (inr (x, l)) ↦
      rw (l, next_event)
        (goes_on id buf id (with_payload buf x) raw lines _ (rw (l, events))
          (next_event-TakesFirst id (with_payload buf x) lines))
]

decode_loop-nil :
    (fuel : ℕ) (json : Codec) (frames : List Frame)
    → decode_loop (suc fuel) json none [] frames ≡ ok (frames ++ frames_of json (events "" "" []))
unfolding decode_loop next_event events
decode_loop-nil fuel json frames = ap ok (sym (append-nil frames))

-- The loop collects the frames of the events, given a round for each line and one more.
decode_loop-events :
    (fuel : ℕ) (json : Codec) (lines : List String) (frames : List Frame)
    → length lines < fuel
    → decode_loop fuel json none lines frames ≡ ok (frames ++ frames_of json (events "" "" lines))
unfolding decode_loop
decode_loop-events zero json lines frames h = absurd (omega arith)
decode_loop-events (suc fuel) json [] frames h = decode_loop-nil fuel json frames
decode_loop-events (suc fuel) json (raw ∷ lines) frames h =
    let taken = next_event-TakesFirst "" "" (raw ∷ lines) in
    elim taken.first [
      | inl (e, f) ↦ rw (e, f, decode_loop) (ap ok (sym (append-nil frames)))
      | inr (ev, e, f) ↦
          let rest = (next_event none "" "" (raw ∷ lines)).1 in
          rw (e, f, decode_loop)
            (decode_loop-events fuel json rest (frames ++ frame_of json ev)
                (omega (arith, taken.shorter))
              ∙ ap ok (append_assoc frames (frame_of json ev) (frames_of json (events "" "" rest))))
    ]

-- A body that ends with io.EOF is decoded to the frames of its events, in order: the events are the
-- groups of its lines up to a blank one, in one pass, and the decoder's own loop always comes to the
-- end of the body.
pub decode_sse_frames-events :
    (json : Codec) (lines : List String)
    → decode_sse_frames json (record { lines = lines; failure = none })
      ≡ ok (frames_of json (events "" "" lines))
unfolding decode_sse_frames
decode_sse_frames-events json lines =
    decode_loop-events (suc (length lines)) json lines [] (omega arith)
