-- ===== src/Adapter/Stream/Cleanup.antt =====
-- When `Stream` of adapter/handler.go cleans up.
use mcp_adapter_engram.Base.{
  ◌≡◌, refl, ap, ◌∙◌, true, Option, none, some, List, [], ◌∷◌, Error, Option-cases, inl, inr,
}
use mcp_adapter_engram.Json.{Codec}
use mcp_adapter_engram.Mcp.Client.{Client, World}
use mcp_adapter_engram.Adapter.Inputs.{Inputs}
use mcp_adapter_engram.Adapter.Process.{
  action_data, batch_cleanup, Engram, execute_action, execute_and_normalize, Host, normalized_data,
  process, reconcile, result_meta, run_cleanup, with_optional_timeout,
}
use mcp_adapter_engram.Adapter.Stream.Answers.{Decoding-cases}
use mcp_adapter_engram.Adapter.Stream.{
  Arrival, handle, decode_stream_inputs, marshal_and_deliver, Log, stream, stream_loop, StreamCodec,
}

module _ (c : Client) (json : Codec) (codec : StreamCodec) (e : Engram c.State)
    (host : Host c.State) where
  abbrev pub without_cleanup : Engram c.State
  without_cleanup = record e { cleanup = none }

  process-streaming :
      (input : Inputs) (w : World c.State)
      → process c json (record e { streaming = true }) input host w
        ≡ process c json (record e { cleanup = none; streaming = true }) input host w
  unfolding process batch_cleanup execute_and_normalize action_data execute_action normalized_data
      result_meta with_optional_timeout reconcile
  process-streaming input w = refl

  handle-streaming :
      (a : Arrival) (log : Log c.State)
      → handle c json codec e host a log ≡ handle c json codec without_cleanup host a log
  unfolding handle
  handle-streaming a log = elim (Decoding-cases (decode_stream_inputs codec a.msg)) [
    | inl f ↦ rw (f, handle)
    | inr (inl (x, f)) ↦ rw (f, handle)
    | inr (inr (input, f)) ↦
        rw (f, handle)
          (ap (λ r. marshal_and_deliver codec a r log) (process-streaming input log.world))
  ]

  stream_loop-streaming :
      (arrivals : List Arrival) (final : Option Error) (log : Log c.State)
      → stream_loop c json codec e host arrivals final log
        ≡ stream_loop c json codec without_cleanup host arrivals final log
  unfolding stream_loop
  stream_loop-streaming [] final log = refl
  stream_loop-streaming (a ∷ arrivals) final log =
      elim (Option-cases (handle c json codec e host a log).0) [
        | inr (x, f) ↦
            rw (← handle-streaming a log, f, stream_loop)
              (ap (λ r. (some x, r.1)) (handle-streaming a log))
        | inl f ↦
            rw (← handle-streaming a log, f, stream_loop)
              (stream_loop-streaming arrivals final (handle c json codec e host a log).1
                ∙ ap (λ r. stream_loop c json codec without_cleanup host arrivals final r.1)
                    (handle-streaming a log))
      ]

  -- The clean-up runs once, when the stream has ended, in whatever way it ends: a stream does what
  -- it would do without any clean-up, and then that.
  pub stream-run_cleanup :
      (arrivals : List Arrival) (final : Option Error) (w : World c.State)
      → (stream c json codec e host arrivals final w).0 ≡ (
          let (x, log) = (stream c json codec without_cleanup host arrivals final w).0 in
          (x, record log { world = run_cleanup e.cleanup log.world }))
  unfolding stream
  stream-run_cleanup arrivals final w =
      rw (stream_loop-streaming arrivals final (record { world = w; sent = []; acked = [] }))
