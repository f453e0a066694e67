-- ===== src/Mcp/Sse.antt =====
-- pkg/mcp/http_client.go: the decoder of text/event-stream bodies.
pub mod Decoding
use mcp_adapter_engram.Base.{
  ℕ, zero, suc, String, ◌<>◌, Bool, true, false, ◌&&◌, ◌||◌, Option, none, some, List, [], ◌∷◌,
  ◌++◌, ◌==◌, if◌then◌else◌, Result, ok, err, Error, eof, length, message,
}
use mcp_adapter_engram.Text.{is_empty, trim_space, trim_right_by, cut_prefix, has_prefix}
use mcp_adapter_engram.Heap.{Value, str, list, Object, elems, Decoded}
use mcp_adapter_engram.Json.{Codec}

-- A body as the reader gives it: the lines that end in a line feed, without it, up to where it
-- ends, and the text of the error that ends it, `none` for io.EOF. What comes after the last line feed is no
-- line: `ReadString` returns it together with the error, and the decoder drops it. The error of a
-- context that is done before a line is read ends the body there.
pub record Body : Type 0 where
  pub lines : List String
  pub failure : Option String

pub record Event : Type 0 where
  pub id : String
  pub text : String

-- What a line does to the event that is being read.
pub data Line : Type 0 where
  blank ignored : Line
  sets_id : String → Line
  adds_data : String → Line

abbrev is_line_end : ℕ → Bool
is_line_end c = c == b'\r' || c == b'\n'

abbrev data_line : Option String → Line
data_line none = ignored
data_line (some rest) = adds_data (trim_space rest)

abbrev field_line : Option String → Option String → Line
field_line (some rest) of_data = sets_id (trim_space rest)
field_line none of_data = data_line of_data

unfoldable pub classify : String → Line
classify raw =
    let line = trim_right_by is_line_end raw in
    if is_empty line
    then blank
    else if has_prefix line ":"
    then ignored
    else field_line (cut_prefix line "id:") (cut_prefix line "data:")

abbrev pub with_payload : String → String → String
with_payload buf payload = if is_empty payload then buf else buf <> (payload <> "\n")

abbrev pub event : String → String → Event
event id buf = record { id = id; text = trim_right_by (λ c. c == b'\n') buf }

abbrev at_end : Option String → String → String → Result Event
at_end (some e) id buf = err (message e)
at_end none id buf = if is_empty buf then err eof else ok (event id buf)

-- `NextEvent`, with what has been read of the event: the event and the lines after it.
unfoldable pub next_event :
    Option String → String → String → List String → Result Event × List String
next_event failure id buf [] = (at_end failure id buf, [])
next_event failure id buf (raw ∷ lines) = elim (classify raw) [
  | blank ↦ elim (is_empty buf && is_empty id) [
    | true ↦ next_event failure id buf lines
    | false ↦ (ok (event id buf), lines)
  ]
  | ignored ↦ next_event failure id buf lines
  | sets_id id' ↦ next_event failure id' buf lines
  | adds_data payload ↦ next_event failure id (with_payload buf payload) lines
]

-- One of the `frames`.
pub data Frame : Type 0 where
  json_frame : Decoded → Frame
  text_frame : String → Frame

abbrev parsed_frame : Option Decoded → String → Frame
parsed_frame (some d) text = json_frame d
parsed_frame none text = text_frame text

-- An event without data brings no frame.
unfoldable pub frame_of : Codec → Event → List Frame
frame_of json ev =
    if is_empty ev.text then [] else parsed_frame (json.unmarshal ev.text) ev.text ∷ []

-- The loop of `decodeSSEFrames`; the frames that Go returns beside an error are dropped by every
-- caller. On fuel, whose end is the error "fuel".
unfoldable pub decode_loop :
    ℕ → Codec → Option String → List String → List Frame → Result (List Frame)
decode_loop zero json failure lines frames = err (message "fuel")
decode_loop (suc fuel) json failure lines frames = elim (next_event failure "" "" lines).0 [
  | err eof ↦ ok frames
  | err e ↦ err e
  | ok ev ↦
      decode_loop fuel json failure (next_event failure "" "" lines).1 (frames ++ frame_of json ev)
]

unfoldable pub decode_sse_frames : Codec → Body → Result (List Frame)
decode_sse_frames json body = decode_loop (suc (length body.lines)) json body.failure body.lines []
