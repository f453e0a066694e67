-- ===== src/Tests/Stdio.antt =====
-- The stdio client of pkg/mcp/stdio_client.go, over a pod that answers request 7.
use mcp_adapter_engram.Base.{
  ℕ, ◌<>◌, err, message, error_text, String, ◌≡◌, refl, inl, inr, none, false, List, [], ◌∷◌, ◌++◌,
  lookup, ok, eof, arith, All, Result, Error, zero, suc,
}
use mcp_adapter_engram.Text.{trim_right_by}
use mcp_adapter_engram.Heap.{obj, str, entries, Decoded, alloc, as_map}
use mcp_adapter_engram.Mcp.Http.{Request, no_params}
use mcp_adapter_engram.Mcp.Stdio.{
  Link, jsonrpc_id_matches, Terminal, rpc, judge, judge_object, line_of, read_response, attempt,
  attempts, recover, reattach, reattach_loop, attach,
}
use mcp_adapter_engram.Mcp.Stdio.Judging.{IsAnswer, IsPassed}
use mcp_adapter_engram.Mcp.Stdio.Response.{read_response_sound}
use mcp_adapter_engram.Mcp.Stdio.Recording.{recording}
use mcp_adapter_engram.Mcp.Stdio.Attempts.{Attempted, rpc-Attempted, rpc_answers}
use mcp_adapter_engram.Mcp.Stdio.Methods.{stdio_client}
use mcp_adapter_engram.Mcp.Stdio.Requests.{Asks, Notifies, stdio_client-Asks}
use mcp_adapter_engram.Mcp.Stdio.Failing.{IsFailure, rpc-IsFailure, tracing}
use mcp_adapter_engram.Tests.Example.{codec}

-- The state is what is written.
abbrev terminal : Terminal
terminal = record {
  State = String;
  new_id = λ s. ("7", s);
  marshal_request = λ h req. ok req.method;
  open_streams = λ s. (ok [], s);
  write = λ text s. (ok ("7\n" ∷ "late\n" ∷ []), text);
  poll = λ s. (none, s);
  read_error = λ s. (eof, s);
  pause = λ d s. (none, s);
  sleep = λ d s. s;
  equals_float = λ f s. false;
  equals_number = λ n s. false;
  unmarshal_error = λ s. s;
  configure = λ s. (none, s);
}

abbrev ping : Request
ping = record { jsonrpc = "2.0"; id = "7"; method = "ping"; params = no_params }

abbrev reply : String → Decoded
reply id = λ a. (obj a, entries (("id", str id) ∷ []) ∷ [])

abbrev waiting : List String
waiting = "\r\n" ∷ "old\n" ∷ []

old-IsPassed : IsPassed terminal codec "7" "old\n"
unfolding line_of trim_right_by alloc as_map lookup jsonrpc_id_matches
old-IsPassed = inr (
  reply "old",
  ("id", str "old") ∷ [],
  refl,
  refl,
  λ fits. elim fits.same_id [ inl y ↦ ground arith | inr (id, e, y) ↦ ground arith ],
)

seven_answers : (t : Terminal) → IsAnswer t codec "7" "7\n" (reply "7")
unfolding line_of trim_right_by alloc as_map lookup jsonrpc_id_matches
seven_answers t = record {
  msg = ("id", str "7") ∷ [];
  not_empty = refl;
  decodes = refl;
  is_object = refl;
  fits = record { not_notification = inl refl; same_id = inr (str "7", refl, refl) };
}

rpc_answers_example :
    ((rpc terminal codec [] ping (record { pending = waiting; peer = "" })).0 ≡ ok (reply "7"))
    × ((rpc terminal codec [] ping (record { pending = waiting; peer = "" })).1.pending
        ≡ "late\n" ∷ [])
unfolding trim_right_by
rpc_answers_example =
    rpc_answers terminal codec [] ping "ping" (record { pending = waiting; peer = "" }) (λ s. refl)
      ("7\n" ∷ "late\n" ∷ []) waiting ("late\n" ∷ []) "7\n" (reply "7") refl refl refl
      (inl refl, (old-IsPassed, tt)) (seven_answers terminal)

rpc-Attempted_example :
    Attempted terminal codec 3 "7" "ping" []
      (rpc (recording terminal) codec [] ping (record { pending = waiting; peer = ("", []) }))
rpc-Attempted_example =
    rpc-Attempted terminal codec [] ping "ping" (record { pending = waiting; peer = ("", []) }) refl

read_response_sound_example :
    (before : List String) × (raw : String) × ("7\n" ∷ "late\n" ∷ []
      ≡ before ++ raw ∷ "late\n" ∷ [])
    × All (IsPassed terminal codec "7") before
    × IsAnswer terminal codec "7" raw (reply "7")
unfolding read_response judge judge_object line_of trim_right_by alloc as_map lookup
    jsonrpc_id_matches
read_response_sound_example =
    read_response_sound terminal codec "7" ("7\n" ∷ "late\n" ∷ []) ("late\n" ∷ []) "" "" (reply "7")
      refl

abbrev line : Link (recording terminal).State
line = record { pending = waiting; peer = ("", []) }

stdio_client-Asks_example :
    Asks terminal codec line ((stdio_client (recording terminal) codec).initialize [] none line)
    × Notifies terminal codec [] ((stdio_client (recording terminal) codec).notify_initialized line)
    × Asks terminal codec line ((stdio_client (recording terminal) codec).list_tools line)
    × Asks terminal codec line
        ((stdio_client (recording terminal) codec).call_tool [] "search" [] line)
    × Asks terminal codec line ((stdio_client (recording terminal) codec).list_resources line)
    × Asks terminal codec line
        ((stdio_client (recording terminal) codec).read_resource "file:a" line)
    × Asks terminal codec line ((stdio_client (recording terminal) codec).get_prompt "" line)
stdio_client-Asks_example = stdio_client-Asks terminal codec [] none "search" "file:a" "" [] line

-- A pod that takes nothing twice and then says nothing.
abbrev taken : ℕ → Result (List String)
taken zero = err (message "broken pipe")
taken (suc zero) = err (message "connection reset")
taken (suc (suc n)) = ok []

abbrev silent : Terminal
silent = record {
  State = ℕ;
  new_id = λ s. ("7", s);
  marshal_request = λ h req. ok req.method;
  open_streams = λ s. (ok [], s);
  write = λ text s. (taken s, suc s);
  poll = λ s. (none, s);
  read_error = λ s. (eof, s);
  pause = λ d s. (none, s);
  sleep = λ d s. s;
  equals_float = λ f s. false;
  equals_number = λ n s. false;
  unmarshal_error = λ s. s;
  configure = λ s. (none, s);
}

abbrev new_link : Link (tracing silent).State
new_link = record { pending = []; peer = (0, []) }

abbrev no_reply : Error
no_reply = message "stdio rpc failed after 3 attempts: stdio read failed: EOF"

silent_fails : (rpc (tracing silent) codec [] ping new_link).0 ≡ err no_reply
unfolding rpc attempts attempt read_response recover reattach reattach_loop attach error_text
silent_fails = refl

rpc-IsFailure_example :
    (r1 r2 r3 : Result (List String)) × (x : Error) × ((rpc
        (tracing silent)
        codec
        []
        ping
        new_link).1.peer.1
      ≡ ("ping\n", r3) ∷ ("ping\n", r2) ∷ ("ping\n", r1) ∷ [])
    × IsFailure silent codec "7" r3 x
    × (no_reply ≡ message ("stdio rpc failed after 3 attempts: " <> error_text x))
rpc-IsFailure_example =
    rpc-IsFailure silent codec [] ping "ping" new_link no_reply refl silent_fails
