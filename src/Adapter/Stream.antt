-- ===== src/Adapter/Stream.antt =====
-- pkg/adapter/handler.go: `Stream`, a message at a time.
pub mod Answers
pub mod Cleanup
use mcp_adapter_engram.Base.{
  String, Bool, true, false, Option, none, some, List, [], ◌∷◌, ◌++◌, if◌then◌else◌, Map, Result,
  ok, err, Error,
}
use mcp_adapter_engram.Text.{is_empty}
use mcp_adapter_engram.Heap.{Heap}
use mcp_adapter_engram.Json.{Codec}
use mcp_adapter_engram.Mcp.Client.{Client, World}
use mcp_adapter_engram.Adapter.Inputs.{Inputs}
use mcp_adapter_engram.Adapter.Process.{Data, Engram, Host, process, run_cleanup}

-- `InboundMessage`: texts for its bytes, empty where Go has none; `binary` is the frame's payload.
pub record Message : Type 0 where
  pub metadata : Map String
  pub inputs : String
  pub payload : String
  pub binary : Option String

-- `StreamMessage`
pub record Response : Type 0 where
  pub metadata : Map String
  pub inputs : String
  pub payload : String
  pub binary : String
  pub mime_type : String

-- `encoding/json` at the two types that a stream uses.
pub record StreamCodec : Type 0 where
  pub decode_inputs : String → Result Inputs
  pub marshal_data : Heap → Data → Result String

-- What is taken from the channel: a message, with the error of the context if that is done before
-- the response to the message is taken.
pub record Arrival : Type 0 where
  pub msg : Message
  pub refused : Option Error

-- What a stream has done: the responses that were taken and the messages it called `Done` on, both
-- in order.
pub record Log (S : Type 0) : Type 0 where
  pub world : World S
  pub sent : List Response
  pub acked : List Message

unfoldable pub stream_json_bytes : Message → String
stream_json_bytes msg =
    if is_empty msg.inputs
    then if is_empty msg.payload
      then elim msg.binary [ none ↦ "" | some payload ↦ payload ]
      else msg.payload
    else msg.inputs

-- The three outcomes of `decodeStreamInputs`; the stream treats a message that cannot be decoded
-- and one without a payload alike, but for the log.
pub data Decoding : Type 0 where
  skip : Decoding
  failed_with : Error → Decoding
  decoded : Inputs → Decoding

abbrev decoding_of : Result Inputs → Decoding
decoding_of (ok inputs) = decoded inputs
decoding_of (err e) = failed_with e

unfoldable pub decode_stream_inputs : StreamCodec → Message → Decoding
unfolding stream_json_bytes
decode_stream_inputs codec msg =
    let raw = stream_json_bytes msg in
    if is_empty raw then skip else decoding_of (codec.decode_inputs raw)

-- `cloneMetadata` copies, which a map that is a value does not show.
unfoldable pub new_stream_response : Message → String → Response
new_stream_response msg payload = record {
  metadata = msg.metadata;
  inputs = payload;
  payload = payload;
  binary = payload;
  mime_type = "application/json";
}

abbrev pub done : {S : Type 0} → Message → Log S → Log S
done msg log = record log { acked = log.acked ++ msg ∷ [] }

-- `select { case out <- response: msg.Done(); case <-ctx.Done(): return ctx.Err() }`
unfoldable pub deliver : {S : Type 0} → Arrival → String → Log S → Option Error × Log S
deliver a payload log = elim a.refused [
  | some e ↦ (some e, log)
  | none ↦
      (none, done a.msg (record log { sent = log.sent ++ new_stream_response a.msg payload ∷ [] }))
]

unfoldable pub marshal_and_deliver :
    {S : Type 0} → StreamCodec → Arrival → Data × World S → Log S → Option Error × Log S
unfolding deliver
marshal_and_deliver codec a (d, w) log = elim (codec.marshal_data w.heap d) [
  | err x ↦ (some x, record log { world = w })
  | ok payload ↦ deliver a payload (record log { world = w })
]

module _ (c : Client) (json : Codec) (codec : StreamCodec) (e : Engram c.State)
    (host : Host c.State) where
  -- The body of the loop for one message; an error ends the stream.
  unfoldable pub handle : Arrival → Log c.State → Option Error × Log c.State
  handle a log = elim (decode_stream_inputs codec a.msg) [
    | skip ↦ (none, done a.msg log)
    | failed_with x ↦ (none, done a.msg log)
    | decoded input ↦
        marshal_and_deliver codec a
          (process c json (record e { streaming = true }) input host log.world) log
  ]

  -- The loop over what arrives, until the channel is closed (`none`) or the context is done.
  unfoldable pub stream_loop :
      List Arrival → Option Error → Log c.State → Option Error × Log c.State
  stream_loop [] final log = (final, log)
  stream_loop (a ∷ arrivals) final log = elim (handle a log).0 [
    | some x ↦ (some x, (handle a log).1)
    | none ↦ stream_loop arrivals final (handle a log).1
  ]

  -- The error, the log after the deferred clean-up, and the engram, which streams no longer.
  unfoldable pub stream :
      List Arrival → Option Error → World c.State → (Option Error × Log c.State) × Engram c.State
  stream arrivals final w =
      let (x, log) = stream_loop arrivals final (record { world = w; sent = []; acked = [] }) in
      ((x, record log { world = run_cleanup e.cleanup log.world }), record e { streaming = false })
