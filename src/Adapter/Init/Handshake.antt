-- ===== src/Adapter/Init/Handshake.antt =====
-- The end of both starts of pkg/adapter/handler.go: how the new client is greeted.
use mcp_adapter_engram.Base.{
  String, ◌≡◌, refl, inl, inr, true, Option, none, some, List, [], ◌∷◌, ◌++◌, Map, ℤ, pos, leb_ℤ,
  Result, ok, err, Error, Bool-cases, Result-cases, if◌then◌else◌,
}
use mcp_adapter_engram.Heap.{Value, Heap, Decoded}
use mcp_adapter_engram.Config.{Config, McpInitConfig}
use mcp_adapter_engram.Mcp.Client.{Client}
use mcp_adapter_engram.Adapter.Init.{handshake, post_init_delay, Start, started, with_client}

-- What a client is asked; a sleep is one of these.
pub data Greeting : Type 0 where
  initializes : Option (Map Value) → Greeting
  notifies : Greeting
  lists_tools : Greeting
  sleeps : ℤ → Greeting
  uses : Greeting

-- A client that keeps what it is asked, the last first.
abbrev pub recording : Client → Client
recording c = record {
  State = c.State × List Greeting;
  initialize = λ h caps s. let (r, t) = c.initialize h caps s.0 in (r, (t, initializes caps ∷ s.1));
  notify_initialized = λ s. let (e, t) = c.notify_initialized s.0 in (e, (t, notifies ∷ s.1));
  list_tools = λ s. let (r, t) = c.list_tools s.0 in (r, (t, lists_tools ∷ s.1));
  call_tool = λ h tool args s. let (r, t) = c.call_tool h tool args s.0 in (r, (t, uses ∷ s.1));
  list_resources = λ s. let (r, t) = c.list_resources s.0 in (r, (t, uses ∷ s.1));
  read_resource = λ uri s. let (r, t) = c.read_resource uri s.0 in (r, (t, uses ∷ s.1));
  get_prompt = λ name s. let (r, t) = c.get_prompt name s.0 in (r, (t, uses ∷ s.1));
  pause = λ d s. let (e, t) = c.pause d s.0 in (e, (t, s.1));
}

module _ (c : Client) (sleep : ℤ → c.State → c.State) where
  abbrev pub recorded_sleep : ℤ → (recording c).State → (recording c).State
  recorded_sleep d s = (sleep d s.0, sleeps d ∷ s.1)

  -- The delay, if there is one.
  abbrev pub delays : ℤ → List Greeting
  delays d = if leb_ℤ d (pos 0) then [] else sleeps d ∷ []

  -- How the start ends, from what `initialize` returns.
  abbrev pub Greets :
      {S : Type 0}
      → McpInitConfig
      → ((recording c).State → Option Error × (recording c).State)
      → List Greeting
      → Result Decoded
      → Start S (recording c).State
      → Type 0
  Greets mcp cleanup before (ok d) (started none e s) =
      (s.1
        ≡ delays mcp.post_init_delay
          ++ lists_tools ∷ notifies ∷ initializes mcp.init_client_capabilities ∷ before)
      × (e.has_client ≡ true)
      × (e.cleanup ≡ some cleanup)
  Greets mcp cleanup before (err x) (started (some y) e s) =
      (y ≡ x) × (s.1 ≡ initializes mcp.init_client_capabilities ∷ before) × (e.cleanup ≡ none)
  Greets mcp cleanup before _ _ = ⊥

  -- A new client is asked to initialize with the configured capabilities. Where it answers, it is
  -- notified, asked for its tools, and given the configured delay if that is positive, in this order,
  -- whether these two succeed or not; then the start succeeds, and the adapter has a client and its
  -- clean-up. Where it fails, nothing more is asked, the start returns the same error, and no clean-up
  -- is kept.
  pub with_client-Greets :
      (S : Type 0) (h : Heap) (cfg : Config) (runner_pod : String)
      (cleanup : (recording c).State → Option Error × (recording c).State) (s : (recording c).State)
      → Greets {S = S} cfg.mcp cleanup s.1 (c.initialize h cfg.mcp.init_client_capabilities s.0).0 (
          with_client
            (recording c)
            recorded_sleep
            cfg
            runner_pod
            cleanup
            (handshake (recording c) recorded_sleep h cfg.mcp s))
  unfolding with_client handshake post_init_delay
  with_client-Greets S h cfg runner_pod cleanup s =
      elim (Result-cases (c.initialize h cfg.mcp.init_client_capabilities s.0).0) [
        | inr (x, f) ↦ rw (f, handshake) (refl, refl, refl)
        | inl (d, f) ↦ elim (Bool-cases (leb_ℤ cfg.mcp.post_init_delay (pos 0))) [
          | inl b ↦ rw (f, handshake) (rw b (refl, refl, refl))
          | inr b ↦ rw (f, handshake) (rw b (refl, refl, refl))
        ]
      ]
