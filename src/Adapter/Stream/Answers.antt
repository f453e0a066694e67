-- ===== src/Adapter/Stream/Answers.antt =====
-- Which messages `Stream` of adapter/handler.go answers, and with what.
use mathlib.Core.List.{append-nil, append_assoc}
use mcp_adapter_engram.Base.{
  String, ◌≡◌, refl, sym, ap, ◌∙◌, ◌⊎◌, inl, inr, Option, none, some, List, [], ◌∷◌, ◌++◌,
  Result-cases, Option-cases, Error,
}
use mcp_adapter_engram.Json.{Codec}
use mcp_adapter_engram.Mcp.Client.{Client, World}
use mcp_adapter_engram.Adapter.Inputs.{Inputs}
use mcp_adapter_engram.Adapter.Process.{Data, Engram, Host}
use mcp_adapter_engram.Adapter.Stream.{
  Arrival, decode_stream_inputs, decoded, Decoding, deliver, failed_with, handle, Log,
  marshal_and_deliver, Message, new_stream_response, Response, skip, stream_loop, StreamCodec,
}

-- What no stream answers: a message without inputs, or one whose inputs cannot be decoded.
abbrev pub IsIgnored : Decoding → Type 0
IsIgnored skip = Unit
IsIgnored (failed_with x) = Unit
IsIgnored (decoded input) = ⊥

-- The responses answer the messages in order, one for each that can be decoded and none for the
-- others, each with the metadata of its message and with its payload in all three places.
pub data Answers (codec : StreamCodec) : List Message → List Response → Type 0 where
  nothing : Answers codec [] []
  ignored :
      (msg : Message) {msgs : List Message} {rs : List Response}
      → IsIgnored (decode_stream_inputs codec msg)
      → Answers codec msgs rs
      → Answers codec (msg ∷ msgs) rs
  answered :
      (msg : Message) (payload : String) (input : Inputs) {msgs : List Message} {rs : List Response}
      → decode_stream_inputs codec msg ≡ decoded input
      → Answers codec msgs rs
      → Answers codec (msg ∷ msgs) (new_stream_response msg payload ∷ rs)

abbrev pub messages : List Arrival → List Message
messages [] = []
messages (a ∷ arrivals) = a.msg ∷ messages arrivals

-- From one log to another: some messages were acknowledged, with the responses that answer them,
-- which leaves the rest; nothing is left unless there was an error.
pub record IsServed {S : Type 0} (codec : StreamCodec) (arrivals : List Arrival)
    (final : Option Error) (log : Log S) (r : Option Error × Log S) : Type 0 where
  pub seen : List Message
  pub left : List Message
  pub responses : List Response
  pub order : messages arrivals ≡ seen ++ left
  pub acked : r.1.acked ≡ log.acked ++ seen
  pub sent : r.1.sent ≡ log.sent ++ responses
  pub answers : Answers codec seen responses
  pub end : ((left ≡ []) × (r.0 ≡ final)) ⊎ ((x : Error) × (r.0 ≡ some x))

-- The same for one message.
abbrev IsHandled : {S : Type 0} → StreamCodec → Arrival → Log S → Option Error × Log S → Type 0
IsHandled codec a log r =
    ((x : Error) × (r.0 ≡ some x) × (r.1.acked ≡ log.acked) × (r.1.sent ≡ log.sent))
    ⊎ ((responses : List Response) × (r.0 ≡ none)
        × (r.1.acked ≡ log.acked ++ a.msg ∷ [])
        × (r.1.sent ≡ log.sent ++ responses)
        × Answers codec (a.msg ∷ []) responses)

pub Decoding-cases :
    (d : Decoding)
    → (d ≡ skip) ⊎ (((x : Error) × (d ≡ failed_with x)) ⊎ ((input : Inputs) × (d ≡ decoded input)))
Decoding-cases skip = inl refl
Decoding-cases (failed_with x) = inr (inl (x, refl))
Decoding-cases (decoded input) = inr (inr (input, refl))

Answers-append :
    {codec : StreamCodec} {msg : Message} {msgs : List Message} {rs ss : List Response}
    → Answers codec (msg ∷ []) rs
    → Answers codec msgs ss
    → Answers codec (msg ∷ msgs) (rs ++ ss)
Answers-append (ignored msg i nothing) b = ignored msg i b
Answers-append (answered msg payload input d nothing) b = answered msg payload input d b

-- One message, and then the rest.
after :
    {S : Type 0} {codec : StreamCodec} (a : Arrival) (arrivals : List Arrival)
    (final : Option Error) (log : Log S) (rs : List Response) (mid : Log S)
    (r : Option Error × Log S)
    → mid.acked ≡ log.acked ++ a.msg ∷ []
    → mid.sent ≡ log.sent ++ rs
    → Answers codec (a.msg ∷ []) rs
    → IsServed codec arrivals final mid r
    → IsServed codec (a ∷ arrivals) final log r
after a arrivals final log rs mid r p q ans ih = record {
  seen = a.msg ∷ ih.seen;
  left = ih.left;
  responses = rs ++ ih.responses;
  order = ap (λ l. a.msg ∷ l) ih.order;
  acked = ih.acked ∙ ap (λ l. l ++ ih.seen) p ∙ append_assoc log.acked (a.msg ∷ []) ih.seen;
  sent = ih.sent ∙ ap (λ l. l ++ ih.responses) q ∙ append_assoc log.sent rs ih.responses;
  answers = Answers-append ans ih.answers;
  end = ih.end;
}

module _ (c : Client) (json : Codec) (codec : StreamCodec) (e : Engram c.State)
    (host : Host c.State) where
  deliver-IsHandled :
      (a : Arrival) (payload : String) (input : Inputs) (log log' : Log c.State)
      → decode_stream_inputs codec a.msg ≡ decoded input
      → log'.acked ≡ log.acked
      → log'.sent ≡ log.sent
      → IsHandled codec a log (deliver a payload log')
  unfolding deliver
  deliver-IsHandled a payload input log log' d p q = elim (Option-cases a.refused) [
    | inr (x, f) ↦ rw (f, deliver) (inl (x, refl, p, q))
    | inl f ↦
        rw (f, deliver)
          (inr (
            new_stream_response a.msg payload ∷ [],
            refl,
            ap (λ l. l ++ a.msg ∷ []) p,
            ap (λ l. l ++ new_stream_response a.msg payload ∷ []) q,
            answered a.msg payload input d nothing,
          ))
  ]

  marshal-IsHandled :
      (a : Arrival) (input : Inputs) (r : Data × World c.State) (log : Log c.State)
      → decode_stream_inputs codec a.msg ≡ decoded input
      → IsHandled codec a log (marshal_and_deliver codec a r log)
  unfolding marshal_and_deliver
  marshal-IsHandled a input (d, w) log f = elim (Result-cases (codec.marshal_data w.heap d)) [
    | inr (x, g) ↦ rw (g, marshal_and_deliver) (inl (x, refl, refl, refl))
    | inl (payload, g) ↦
        rw (g, marshal_and_deliver)
          (deliver-IsHandled a payload input log (record log { world = w }) f refl refl)
  ]

  handle-IsHandled :
      (a : Arrival) (log : Log c.State) → IsHandled codec a log (handle c json codec e host a log)
  unfolding handle
  handle-IsHandled a log = elim (Decoding-cases (decode_stream_inputs codec a.msg)) [
    | inl f ↦
        rw (f, handle) (inr ([], refl, refl, sym (append-nil _), ignored a.msg (rw f tt) nothing))
    | inr (inl (x, f)) ↦
        rw (f, handle) (inr ([], refl, refl, sym (append-nil _), ignored a.msg (rw f tt) nothing))
    | inr (inr (input, f)) ↦ rw (f, handle) (marshal-IsHandled a input _ log f)
  ]

  -- A stream acknowledges its messages in order, up to some point; each of them that can be decoded
  -- is answered, once and in order, with its own metadata, and the others are not; a message is left
  -- only if the stream returns an error, and else it returns how the receiving ended.
  pub stream_loop-IsServed :
      (arrivals : List Arrival) (final : Option Error) (log : Log c.State)
      → IsServed codec arrivals final log (stream_loop c json codec e host arrivals final log)
  unfolding stream_loop
  stream_loop-IsServed [] final log = record {
    seen = [];
    left = [];
    responses = [];
    order = refl;
    acked = sym (append-nil _);
    sent = sym (append-nil _);
    answers = nothing;
    end = inl (refl, refl);
  }
  stream_loop-IsServed (a ∷ arrivals) final log = elim (handle-IsHandled a log) [
    | inl (x, f, p, q) ↦
        rw (f, stream_loop)
          (record {
            seen = [];
            left = messages (a ∷ arrivals);
            responses = [];
            order = refl;
            acked = p ∙ sym (append-nil _);
            sent = q ∙ sym (append-nil _);
            answers = nothing;
            end = inr (x, refl);
          })
    | inr (rs, f, p, q, ans) ↦
        rw (f, stream_loop)
          (after a arrivals final log rs _ _ p q ans
            (stream_loop-IsServed arrivals final (handle c json codec e host a log).1))
  ]
