-- ===== src/Mcp/Stdio.antt =====
-- pkg/mcp/stdio_client.go: requests and responses as lines of a runner pod's standard streams.
pub mod Judging
pub mod Response
pub mod Recording
pub mod Attempts
pub mod Methods
pub mod Failing
pub mod Requests
use text.Mathlib.Text.{◌==◌ as str_eq}
use mcp_adapter_engram.Base.{
  ℕ, zero, suc, String, ◌<>◌, Bool, true, false, ◌||◌, ◌&&◌, not, Option, none, some, List, [], ◌∷◌,
  ◌++◌, ◌==◌, if◌then◌else◌, Map, lookup, ℤ, pos, negsuc, Result, ok, err, Error, message,
  error_text,
}
use mcp_adapter_engram.Text.{is_empty, trim_space, trim_right_by, atoi}
use mcp_adapter_engram.Heap.{
  Value, nil, bool, num, str, list, obj, Float, Number, int, int32, int64, float32, float64,
  json_number, Heap, Decoded, alloc, as_map,
}
use mcp_adapter_engram.Json.{Codec}
use mcp_adapter_engram.Mcp.Client.{Client}
use mcp_adapter_engram.Mcp.Http.{
  Params, no_params, tool_params, uri_params, name_params, Request, build_init_params,
}

-- The pod's streams, uuid and the clock, over their state.
pub record Terminal : Type 1 where
  pub State : Type 0
  pub new_id : State → String × State
  -- `json.Marshal` of a request, which reads its maps and slices from the heap
  pub marshal_request : Heap → Request → Result String
  -- new streams to the pod; the lines that come before anything is written to them
  pub open_streams : State → Result (List String) × State
  -- `c.writer.Write`; the lines that come after it and before the next write. A peer that stays
  -- silent for ever gives no line and no error: the read then does not return, and it is not
  -- described here.
  pub write : String → State → Result (List String) × State
  -- `select { case <-ctx.Done(): …; default: }`
  pub poll : State → Option Error × State
  -- the error of `ReadBytes` where no further line comes
  pub read_error : State → Error × State
  -- `select { case <-ctx.Done(): …; case <-time.After(d): }`, and `time.Sleep`
  pub pause : ℤ → State → Option Error × State
  pub sleep : ℤ → State → State
  -- `v == parsed` for `parsed` the result of `strconv.ParseFloat(expected, 64)`, false for its error;
  -- the second for `v` the text of a `json.Number`
  pub equals_float : Float → String → Bool
  pub equals_number : String → String → Bool
  -- the text of the error of `json.Unmarshal`
  pub unmarshal_error : String → String
  -- `sdkk8s.GetConfig` and `kubernetes.NewForConfig`
  pub configure : State → Option Error × State

-- The client's reader, by the lines that wait in it, and all else.
pub record Link (S : Type 0) : Type 0 where
  pub pending : List String
  pub peer : S

abbrev eq_ℤ : ℤ → ℤ → Bool
eq_ℤ (pos m) (pos n) = m == n
eq_ℤ (negsuc m) (negsuc n) = m == n
eq_ℤ _ _ = false

abbrev equals_int : ℤ → Option ℤ → Bool
equals_int n none = false
equals_int n (some m) = eq_ℤ n m

abbrev is_line_end : ℕ → Bool
is_line_end c = c == b'\r' || c == b'\n'

-- What the loop does with a line: go on, or return.
pub data Verdict : Type 0 where
  skipped : Verdict
  answer : Decoded → Verdict
  invalid : Error → Verdict

abbrev has : Option Value → Bool
has none = false
has (some v) = true

abbrev pub line_of : String → String
line_of raw = trim_right_by is_line_end raw

-- The message in a heap of its own.
abbrev pub object_of : Decoded → Option (Map Value)
object_of d = let (v, h) = alloc d [] in as_map h v

module _ (t : Terminal) (json : Codec) where
  unfoldable pub jsonrpc_id_matches : String → Value → Bool
  jsonrpc_id_matches expected (str s) = str_eq s expected
  jsonrpc_id_matches expected (num (float64 f)) = t.equals_float f expected
  jsonrpc_id_matches expected (num (int n)) = equals_int n (atoi expected)
  jsonrpc_id_matches expected (num (int64 n)) = equals_int n (atoi expected)
  jsonrpc_id_matches expected (num (json_number s)) = t.equals_number s expected
  jsonrpc_id_matches expected _ = false

  -- A message without an id is no response to a request with one.
  abbrev matches : String → Option Value → Bool
  matches req_id none = false
  matches req_id (some id) = jsonrpc_id_matches req_id id

  -- The tests of an object.
  unfoldable pub judge_object : String → Decoded → Map Value → Verdict
  judge_object req_id d msg =
      if has (lookup "method" msg) && not (has (lookup "id" msg))
      then skipped
      else if is_empty req_id || matches req_id (lookup "id" msg)
      then answer d
      else skipped

  abbrev judge_value : String → Decoded → Option (Map Value) → Verdict
  judge_value req_id d none = invalid (message "invalid JSON-RPC response: expected object")
  judge_value req_id d (some msg) = judge_object req_id d msg

  abbrev judge_decoded : String → String → Option Decoded → Verdict
  judge_decoded req_id line none =
      invalid (message ("invalid JSON-RPC response: " <> t.unmarshal_error line))
  judge_decoded req_id line (some d) = judge_value req_id d (object_of d)

  unfoldable pub judge : String → String → Verdict
  judge req_id raw =
      let line = line_of raw in
      if is_empty line then skipped else judge_decoded req_id line (json.unmarshal line)

  -- `readResponse`, with the lines that are left in the reader.
  unfoldable pub read_response :
      String → List String → t.State → (Result Decoded × List String) × t.State
  read_response req_id [] s = elim (t.poll s).0 [
    | some e ↦ ((err e, []), (t.poll s).1)
    | none ↦ let (e, s') = t.read_error (t.poll s).1 in ((err e, []), s')
  ]
  read_response req_id (raw ∷ lines) s = elim (t.poll s).0 [
    | some e ↦ ((err e, raw ∷ lines), (t.poll s).1)
    | none ↦ elim (judge req_id raw) [
      | skipped ↦ read_response req_id lines (t.poll s).1
      | answer d ↦ ((ok d, lines), (t.poll s).1)
      | invalid e ↦ ((err e, lines), (t.poll s).1)
    ]
  ]

  abbrev attached : Link t.State → Result (List String) × t.State → Option Error × Link t.State
  attached l (ok lines, s) = (none, record { pending = lines; peer = s })
  attached l (err e, s) = (some e, record l { peer = s })

  -- A failed attach leaves the old reader and writer.
  unfoldable pub attach : Link t.State → Option Error × Link t.State
  attach l = attached l (t.open_streams l.peer)

  -- The loop of `reattach`, with the rounds left and `lastErr`.
  unfoldable pub reattach_loop : ℕ → Option Error → Link t.State → Option Error × Link t.State
  reattach_loop zero last l = (last, l)
  reattach_loop (suc left) last l = elim (attach l).0 [
    | none ↦ (none, (attach l).1)
    | some e ↦
        let (done, s) = t.pause (pos 300_000_000) (attach l).1.peer in
        elim done [
          | some x ↦ (some x, record l { pending = (attach l).1.pending; peer = s })
          | none ↦
              reattach_loop left (some e) (record l { pending = (attach l).1.pending; peer = s })
        ]
  ]

  unfoldable pub reattach : Link t.State → Option Error × Link t.State
  reattach l = reattach_loop 3 none l

  -- What follows a failed attempt; `left` counts the attempts after it.
  unfoldable pub recover : ℕ → Link t.State → Link t.State
  recover zero l = (reattach l).1
  recover (suc left) l =
      let l' = (reattach l).1 in record l' { peer = t.sleep (pos 200_000_000) l'.peer }

  abbrev received :
      Link t.State → (Result Decoded × List String) × t.State → Result Decoded × Link t.State
  received l ((ok d, lines), s) = (ok d, record { pending = lines; peer = s })
  received l ((err e, lines), s) =
      (err (message ("stdio read failed: " <> error_text e)), record { pending = lines; peer = s })

  abbrev written :
      String → Link t.State → Result (List String) × t.State → Result Decoded × Link t.State
  written req_id l (err e, s) =
      (err (message ("stdio write failed: " <> error_text e)), record l { peer = s })
  written req_id l (ok lines, s) = received l (read_response req_id (l.pending ++ lines) s)

  -- One attempt: the write, and the read of the response.
  unfoldable pub attempt : String → String → Link t.State → Result Decoded × Link t.State
  attempt req_id body l = written req_id l (t.write (body <> "\n") l.peer)

  abbrev gave_up : Error → Error
  gave_up e = message ("stdio rpc failed after 3 attempts: " <> error_text e)

  -- The loop of `rpc`, with the attempts left and `lastErr`.
  unfoldable pub attempts :
      ℕ → String → String → Error → Link t.State → Result Decoded × Link t.State
  attempts zero req_id body last l = (err (gave_up last), l)
  attempts (suc left) req_id body last l = elim (attempt req_id body l).0 [
    | ok d ↦ (ok d, (attempt req_id body l).1)
    | err e ↦ attempts left req_id body e (recover left (attempt req_id body l).1)
  ]

  abbrev send : String → Result String → Link t.State → Result Decoded × Link t.State
  send req_id (err e) l = (err e, l)
  send req_id (ok body) l = attempts 3 req_id body (message "") l

  unfoldable pub rpc : Heap → Request → Link t.State → Result Decoded × Link t.State
  rpc h req l = send req.id (t.marshal_request h req) l
