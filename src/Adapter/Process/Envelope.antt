-- ===== src/Adapter/Process/Envelope.antt =====
-- The shape of what `Process` of adapter/handler.go returns.
use mathlib.Core.Path.{subst}
use text.Mathlib.TextEquality.{eq_iff}
use mcp_adapter_engram.Base.{
  Bool, sym, if◌then◌else◌, String, ◌≡◌, ◌≢◌, ◌⊎◌, inl, inr, true, false, none, some, List, [], ◌∷◌,
  arith, Bool-cases, Result-cases, refl, Error, error_text, ok, err, invalid_action, All,
}
use mcp_adapter_engram.Heap.{Value}
use mcp_adapter_engram.Json.{Codec}
use mcp_adapter_engram.Mcp.Client.{Client, World}
use mcp_adapter_engram.Adapter.Inputs.{Inputs}
use mcp_adapter_engram.Adapter.Normalize.{is_nil}
use mcp_adapter_engram.Adapter.Paginate.{normalize_and_paginate}
use mcp_adapter_engram.Adapter.Process.{
  action_data, action_error, batch_cleanup, Data, Engram, execute_action, execute_and_normalize,
  failed, Host, no_data, normalized_data, process, result_meta, with_optional_timeout,
}

-- An error excludes a result, and only a result comes with something parsed.
abbrev pub IsEnvelope : Data → Type 0
IsEnvelope d =
    ((d.error ≡ none) ⊎ (d.result ≡ none)) × ((d.result_parsed ≡ none) ⊎ (d.result ≢ none))

if_true : {A : Type 0} (b : Bool) (x y : A) → b ≡ true → (if b then x else y) ≡ x
if_true true x y e = refl
if_true false x y e = absurd (ground arith)

if_false : {A : Type 0} (b : Bool) (x y : A) → b ≡ false → (if b then x else y) ≡ y
if_false false x y e = refl
if_false true x y e = absurd (ground arith)

module _ (c : Client) (json : Codec) (e : Engram c.State) (input : Inputs) where
  -- What the action, from a state on, and the pagination of what it returns give for the output, with
  -- the state they leave.
  pub data Gives (w : World c.State) : Data → World c.State → Type 0 where
    action_fails :
        (x : Error)
        → (execute_action c json e input w).0 ≡ err x
        → Gives w (failed (action_error x)) (execute_action c json e input w).1
    nothing :
        (v : Value)
        → (execute_action c json e input w).0 ≡ ok v
        → is_nil v ≡ true
        → Gives w no_data (execute_action c json e input w).1
    pages_fail :
        (v : Value) (x : Error)
        → (execute_action c json e input w).0 ≡ ok v
        → is_nil v ≡ false
        → (normalize_and_paginate c json input v (execute_action c json e input w).1).0 ≡ err x
        → Gives w
            (failed (error_text x))
            (normalize_and_paginate c json input v (execute_action c json e input w).1).1
    unparsed :
        (v parsed : Value)
        → (execute_action c json e input w).0 ≡ ok v
        → is_nil v ≡ false
        → (normalize_and_paginate c json input v (execute_action c json e input w).1).0 ≡ ok parsed
        → is_nil parsed ≡ true
        → Gives w
            (record no_data { result = some v })
            (normalize_and_paginate c json input v (execute_action c json e input w).1).1
    whole :
        (v parsed : Value)
        → (execute_action c json e input w).0 ≡ ok v
        → is_nil v ≡ false
        → (normalize_and_paginate c json input v (execute_action c json e input w).1).0 ≡ ok parsed
        → is_nil parsed ≡ false
        → Gives w
            (record no_data { result = some v; result_parsed = some parsed })
            (normalize_and_paginate c json input v (execute_action c json e input w).1).1

  Gives-IsEnvelope :
      (w : World c.State) (d : Data) (w1 : World c.State) → Gives w d w1 → IsEnvelope d
  Gives-IsEnvelope w d w1 (action_fails x f) = ground arith
  Gives-IsEnvelope w d w1 (nothing v f y) = ground arith
  Gives-IsEnvelope w d w1 (pages_fail v x f n g) = ground arith
  Gives-IsEnvelope w d w1 (unparsed v parsed f n g y) = ground arith
  Gives-IsEnvelope w d w1 (whole v parsed f n g y) = ground arith

  execute_and_normalize-Gives :
      (w : World c.State)
      → Gives w
          (execute_and_normalize c json e input w).0
          (execute_and_normalize c json e input w).1
  unfolding execute_and_normalize action_data normalized_data
  execute_and_normalize-Gives w = elim (Result-cases (execute_action c json e input w).0) [
    | inr (x, f) ↦ rw f (action_fails x f)
    | inl (v, f) ↦ elim (Bool-cases (is_nil v)) [
      | inl y ↦ rw (f, y) (nothing v f y)
      | inr n ↦
          let paged = normalize_and_paginate c json input v (execute_action c json e input w).1 in
          elim (Result-cases paged.0) [
            | inr (x, g) ↦ rw (f, n, g) (pages_fail v x f n g)
            | inl (parsed, g) ↦ elim (Bool-cases (is_nil parsed)) [
              | inl y ↦ rw (f, n, g, y) (unparsed v parsed f n g y)
              | inr n' ↦ rw (f, n, g, n') (whole v parsed f n g n')
            ]
          ]
    ]
  ]

  -- With a client, the output is what the action gives under its timeout: the error text of a failed
  -- action; neither error nor result for a nil result; the error text of a failed pagination; or
  -- the result, and beside it what was parsed unless that is nil. It holds the metadata with the time
  -- from the call to the end of all this, and then the clean-up of batch mode and the cancel follow.
  -- Without a client the output is the error "client not initialized" alone and nothing has been
  -- changed. So an error excludes a result, and only a result comes with something parsed.
  pub process-IsEnvelope :
      (host : Host c.State) (w : World c.State)
      → IsEnvelope (process c json e input host w).0
        × (((e.has_client ≡ true)
              × ((d : Data) × (w1 : World c.State) × Gives
                    (with_optional_timeout c json e input host w)
                    d
                    w1
                  × (process c json e input host w ≡ (
                    record d {
                      meta =
                          some (result_meta c json e input (host.milliseconds w.remote w1.remote));
                    },
                    let w2 = batch_cleanup c json e input host w1 in
                        record w2 { remote = host.cancel w2.remote },
                  ))))
            ⊎ ((e.has_client ≡ false)
                × (process c json e input host w ≡ (failed "client not initialized", w))))
  unfolding process
  process-IsEnvelope host w =
      let start = with_optional_timeout c json e input host w in
      let given = execute_and_normalize-Gives start in
      elim (Bool-cases e.has_client) [
        | inl b ↦
            let q = if_true e.has_client _ _ b in
            (
              subst (λ r. IsEnvelope r.0) (sym q) (Gives-IsEnvelope start _ _ given),
              inl (b, (_, _, given, q)),
            )
        | inr b ↦
            let q = if_false e.has_client _ _ b in
            (subst (λ r. IsEnvelope r.0) (sym q) (ground arith), inr (b, q))
      ]

-- The actions that `executeAction` knows.
abbrev pub actions : List String
actions =
    "reconcile" ∷ "listTools" ∷ "callTool" ∷ "listResources" ∷ "readResource" ∷ "getPrompt" ∷ []

execute_action_unknown :
    (c : Client) (json : Codec) (e : Engram c.State) (input : Inputs) (w : World c.State)
    → All (λ a. input.action ≢ a) actions
    → execute_action c json e input w ≡ (err (invalid_action input.action), w)
unfolding execute_action
execute_action_unknown c json e input w h = ground (
  arith,
  eq_iff input.action "reconcile",
  eq_iff input.action "listTools",
  eq_iff input.action "callTool",
  eq_iff input.action "listResources",
  eq_iff input.action "readResource",
  eq_iff input.action "getPrompt",
)

-- With a client, for an action that `executeAction` does not know, whatever its name, the output has
-- the error "invalid action" and no result, and the server is not spoken to: the heap is as it was,
-- and outside only the context and the cleanup are touched.
pub process_unknown_action :
    (c : Client) (json : Codec) (e : Engram c.State) (input : Inputs) (host : Host c.State)
    (w : World c.State)
    → e.has_client ≡ true
    → All (λ a. input.action ≢ a) actions
    → ((process c json e input host w).0.error ≡ some "invalid action")
      × ((process c json e input host w).0.result ≡ none)
      × ((process c json e input host w).1 ≡ (
          let w1 =
            batch_cleanup c json e input host (with_optional_timeout c json e input host w) in
          record w1 { remote = host.cancel w1.remote }))
unfolding process execute_and_normalize action_data action_error
process_unknown_action c json e input host w b h =
    let start = with_optional_timeout c json e input host w in
    ground (arith, execute_action_unknown c json e input start h)
