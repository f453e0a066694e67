-- ===== src/Tests/Process.antt =====
-- `Process` of adapter/handler.go on the script.
use text.Mathlib.TextEquality.{eq_iff}
use mcp_adapter_engram.Base.{◌≤◌, ◌≡◌, ◌≢◌, ◌⊎◌, refl, arith, true, false, none, some, All}
use mcp_adapter_engram.Mcp.Client.{World}
use mcp_adapter_engram.Mcp.Client.Counted.{calls, counted}
use mcp_adapter_engram.Adapter.Process.{
  batch_cleanup, Data, execute_and_normalize, failed, process, result_meta, with_optional_timeout,
}
use mcp_adapter_engram.Adapter.Process.Envelope.{
  Gives, IsEnvelope, actions, process-IsEnvelope, process_unknown_action,
}
use mcp_adapter_engram.Adapter.Process.Calls.{
  calls-execute_and_normalize, execute_and_normalize_otherwise,
}
use mcp_adapter_engram.Tests.Example.{codec, counted_world, engram, host, input, script, world}

process-IsEnvelope_example :
    IsEnvelope (process script codec engram (input "listTools") host world).0
    × (((true ≡ true)
          × ((d : Data) × (w1 : World script.State) × Gives script codec engram
                (input "listTools")
                (with_optional_timeout script codec engram (input "listTools") host world)
                d
                w1
              × (process script codec engram (input "listTools") host world ≡ (
                record d {
                  meta = some (
                      result_meta script codec engram
                        (input "listTools")
                        (host.milliseconds world.remote w1.remote));
                },
                let w2 = batch_cleanup script codec engram (input "listTools") host w1 in
                    record w2 { remote = host.cancel w2.remote },
              ))))
        ⊎ ((true ≡ false)
            × (process script codec engram (input "listTools") host world
                ≡ (failed "client not initialized", world))))
process-IsEnvelope_example = process-IsEnvelope script codec engram (input "listTools") host world

unknown : All (λ a. "calltool" ≢ a) actions
unknown = ground (
  arith,
  eq_iff "calltool" "reconcile",
  eq_iff "calltool" "listTools",
  eq_iff "calltool" "callTool",
  eq_iff "calltool" "listResources",
  eq_iff "calltool" "readResource",
  eq_iff "calltool" "getPrompt",
)

other : (input "listTools").action ≢ "callTool"
other = ground (arith, eq_iff "listTools" "callTool")

process_unknown_action_example :
    ((process script codec engram (input "calltool") host world).0.error ≡ some "invalid action")
    × ((process script codec engram (input "calltool") host world).0.result ≡ none)
    × ((process script codec engram (input "calltool") host world).1 ≡ (
        let w1 =
          batch_cleanup script codec engram
            (input "calltool")
            host
            (with_optional_timeout script codec engram (input "calltool") host world) in
        record w1 { remote = host.cancel w1.remote }))
process_unknown_action_example =
    process_unknown_action script codec engram (input "calltool") host world refl unknown

execute_and_normalize_otherwise_example :
    calls script
      (execute_and_normalize (counted script) codec engram (input "listTools") counted_world).1
    ≡ 0
execute_and_normalize_otherwise_example =
    execute_and_normalize_otherwise script codec engram (input "listTools") counted_world other

calls-execute_and_normalize_example :
    calls script
      (execute_and_normalize (counted script) codec engram (input "callTool") counted_world).1
    ≤ 5
calls-execute_and_normalize_example =
    calls-execute_and_normalize script codec engram (input "callTool") counted_world refl
