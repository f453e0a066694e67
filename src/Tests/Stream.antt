-- ===== src/Tests/Stream.antt =====
-- `Stream` of adapter/handler.go on the script.
use mcp_adapter_engram.Base.{◌≡◌, none, some, List, [], ◌∷◌, Result, ok, message}
use mcp_adapter_engram.Heap.{Decoded}
use mcp_adapter_engram.Adapter.Process.{Engram, run_cleanup}
use mcp_adapter_engram.Adapter.Stream.{Arrival, Log, stream, stream_loop, StreamCodec}
use mcp_adapter_engram.Adapter.Stream.Answers.{IsServed, stream_loop-IsServed}
use mcp_adapter_engram.Adapter.Stream.Cleanup.{stream-run_cleanup, without_cleanup}
use mcp_adapter_engram.Tests.Example.{codec, engram, host, input, script, world}

abbrev stream_codec : StreamCodec
stream_codec = record {
  decode_inputs = λ text. ok (input "listTools");
  marshal_data = λ h d. ok "{}";
}

-- A message without a payload, one whose response is taken, and one whose response is refused.
abbrev arrivals : List Arrival
arrivals =
    record {
      msg = record { metadata = []; inputs = ""; payload = ""; binary = none };
      refused = none;
    }
    ∷ record {
      msg = record { metadata = ("id", "1") ∷ []; inputs = "{}"; payload = ""; binary = none };
      refused = none;
    }
    ∷ record {
      msg = record { metadata = ("id", "2") ∷ []; inputs = ""; payload = "{}"; binary = none };
      refused = some (message "context canceled");
    }
    ∷ []

abbrev start : Log (List (Result Decoded))
start = record { world = world; sent = []; acked = [] }

stream_loop-IsServed_example :
    IsServed stream_codec arrivals none start
      (stream_loop script codec stream_codec engram host arrivals none start)
stream_loop-IsServed_example =
    stream_loop-IsServed script codec stream_codec engram host arrivals none start

-- Its clean-up drops the script.
abbrev cleaning : Engram (List (Result Decoded))
cleaning = record engram { cleanup = some (λ rs. (none, [])) }

stream-run_cleanup_example :
    (stream script codec stream_codec cleaning host arrivals none world).0 ≡ (
      let (x, log) =
        (stream script codec stream_codec
          (without_cleanup script codec stream_codec cleaning host)
          host
          arrivals
          none
          world).0 in
      (x, record log { world = run_cleanup cleaning.cleanup log.world }))
stream-run_cleanup_example =
    stream-run_cleanup script codec stream_codec cleaning host arrivals none world
