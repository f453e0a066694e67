-- ===== src/Kube/Lifecycle/Outcome.antt =====
-- What `WaitForPodRunning` of pkg/kube/runner_pod.go waits for.
use text.Mathlib.Text.{◌==◌ as str_eq}
use text.Mathlib.TextEquality.{eq_iff}
use mcp_adapter_engram.Base.{
  ℕ, zero, suc, ◌+◌, ◌≤◌, ltb, String, ◌≡◌, refl, ◌⊎◌, inl, inr, true, ◌&&◌, Option, none, some,
  List, [], ◌∷◌, Result, ok, err, Error, arith, Bool-cases, Option-cases, Result-cases, str_eq→eq,
}
use mcp_adapter_engram.Kube.Lifecycle.{
  again, completed, ContainerStatus, has_ready, is_pod_ready, is_terminal, Lifecycle, PodStatus,
  running, turn, wait_loop, wait_or_cancel, wait_until, wait_for_pod_running,
}
use mcp_adapter_engram.Kube.Lifecycle.Recording.{Act, reads, recording}
use mcp_adapter_engram.Kube.Lifecycle.Waiting.{Turn-cases, wait_until_ends}

pub data HasReady : List ContainerStatus → Type 0 where
  here :
      (cs : ContainerStatus) (rest : List ContainerStatus)
      → cs.name ≡ "with-stdio"
      → cs.ready ≡ true
      → HasReady (cs ∷ rest)
  there :
      (cs : ContainerStatus) (rest : List ContainerStatus) → HasReady rest → HasReady (cs ∷ rest)

abbrev pub IsReady : PodStatus → Type 0
IsReady pod = (pod.phase ≡ "Running") × HasReady pod.containers

abbrev pub IsOver : PodStatus → Type 0
IsOver pod = (pod.phase ≡ "Failed") ⊎ (pod.phase ≡ "Succeeded")

-- A status that cannot be read, or neither.
abbrev pub IsPending : Result PodStatus → Type 0
IsPending (err e) = Unit
IsPending (ok pod) = (IsReady pod → ⊥) × (IsOver pod → ⊥)

-- The statuses read, from those before, with the outcome.
pub data Waits : List Act → Result (Unit {0}) → List Act → Type 0 where
  gives_up : (log : List Act) (e : Error) → Waits log (err e) log
  becomes_ready :
      (log : List Act) (pod : PodStatus) → IsReady pod → Waits log (ok tt) (reads (ok pod) ∷ log)
  is_over :
      (log : List Act) (pod : PodStatus) (e : Error)
      → IsOver pod
      → Waits log (err e) (reads (ok pod) ∷ log)
  goes_on :
      (log : List Act) (found : Result PodStatus) (r : Result (Unit {0})) (after : List Act)
      → IsPending found
      → Waits (reads found ∷ log) r after
      → Waits log r after

has_ready_sound : (css : List ContainerStatus) → has_ready css ≡ true → HasReady css
unfolding has_ready
has_ready_sound [] e = absurd (ground arith)
has_ready_sound (cs ∷ rest) e = elim (Bool-cases (str_eq cs.name "with-stdio" && cs.ready)) [
  | inl g ↦
      here cs rest (str_eq→eq _ _ (ground (arith, Bool-cases (str_eq cs.name "with-stdio"))))
        (ground (arith, Bool-cases (str_eq cs.name "with-stdio")))
  | inr g ↦ there cs rest (has_ready_sound rest (ground arith))
]

has_ready_complete : (css : List ContainerStatus) → HasReady css → has_ready css ≡ true
unfolding has_ready
has_ready_complete css (here cs rest n y) =
    let g : str_eq cs.name "with-stdio" ≡ true = (eq_iff _ _).1 n in ground arith
has_ready_complete css (there cs rest h) =
    let g = has_ready_complete rest h in
    ground (arith, Bool-cases (str_eq cs.name "with-stdio" && cs.ready))

is_pod_ready_sound : (pod : PodStatus) → is_pod_ready pod ≡ true → IsReady pod
unfolding is_pod_ready
is_pod_ready_sound pod e = elim (Bool-cases (str_eq pod.phase "Running")) [
  | inl g ↦ (str_eq→eq _ _ g, has_ready_sound pod.containers (ground arith))
  | inr g ↦ absurd (ground arith)
]

is_pod_ready_complete : (pod : PodStatus) → IsReady pod → is_pod_ready pod ≡ true
unfolding is_pod_ready
is_pod_ready_complete pod (phase, ready) =
    let g : str_eq pod.phase "Running" ≡ true = (eq_iff _ _).1 phase in
    rw g (has_ready_complete pod.containers ready)

is_terminal_sound : (pod : PodStatus) → is_terminal pod ≡ true → IsOver pod
unfolding is_terminal
is_terminal_sound pod e = elim (Bool-cases (str_eq pod.phase "Failed")) [
  | inl g ↦ inl (str_eq→eq _ _ g)
  | inr g ↦ inr (str_eq→eq _ _ (ground arith))
]

is_terminal_complete : (pod : PodStatus) → IsOver pod → is_terminal pod ≡ true
unfolding is_terminal
is_terminal_complete pod (inl f) = rw ((eq_iff pod.phase "Failed").1 f) refl
is_terminal_complete pod (inr f) =
    let g : str_eq pod.phase "Succeeded" ≡ true = (eq_iff _ _).1 f in
    ground (arith, Bool-cases (str_eq pod.phase "Failed"))

turn_running :
    (found : Result PodStatus)
    → turn found ≡ running
    → (pod : PodStatus) × (found ≡ ok pod) × IsReady pod
unfolding turn
turn_running (err e) h = absurd (ground arith)
turn_running (ok pod) h = (
  pod,
  refl,
  is_pod_ready_sound pod
      (ground (arith, Bool-cases (is_pod_ready pod), Bool-cases (is_terminal pod))),
)

turn_completed :
    (found : Result PodStatus) (phase : String)
    → turn found ≡ completed phase
    → (pod : PodStatus) × (found ≡ ok pod) × IsOver pod
unfolding turn
turn_completed (err e) phase h = absurd (ground arith)
turn_completed (ok pod) phase h = (
  pod,
  refl,
  is_terminal_sound pod
      (ground (arith, Bool-cases (is_pod_ready pod), Bool-cases (is_terminal pod))),
)

turn_again : (found : Result PodStatus) → turn found ≡ again → IsPending found
unfolding turn
turn_again (err e) h = tt
turn_again (ok pod) h = (
  (λ ready. let g = is_pod_ready_complete pod ready in ground arith),
  λ over. let g = is_terminal_complete pod over in ground (arith, Bool-cases (is_pod_ready pod)),
)

module _ {S : Type 0} (k : Lifecycle S) (namespace name : String) where
  abbrev Reports : List Act → Option (Result (Unit {0}) × (S × List Act)) → Type 0
  Reports log none = Unit
  Reports log (some (r, s)) = Waits log r s.1

  pending_first :
      (log : List Act) (found : Result PodStatus) (o : Option (Result (Unit {0}) × (S × List Act)))
      → IsPending found
      → Reports (reads found ∷ log) o
      → Reports log o
  pending_first log found none pending w = tt
  pending_first log found (some (r, s)) pending w = goes_on log found r s.1 pending w

  wait_loop-Reports :
      (fuel deadline : ℕ) (s : S × List Act)
      → Reports s.1 (wait_loop (recording k) fuel deadline namespace name s)
  unfolding wait_loop wait_or_cancel
  wait_loop-Reports zero deadline s = tt
  wait_loop-Reports (suc fuel) deadline s = elim (Bool-cases (ltb deadline (k.clock s.0))) [
    | inl late ↦ rw (late, wait_loop) (gives_up _ _)
    | inr b ↦ elim (Turn-cases (turn (k.get_status namespace name s.0).0)) [
      | inl f ↦
          let (pod, found, ready) = turn_running _ f in
          rw (b, f, found, wait_loop) (becomes_ready _ pod ready)
      | inr (inl (phase, f)) ↦
          let (pod, found, over) = turn_completed _ phase f in
          rw (b, f, found, wait_loop) (is_over _ pod _ over)
      | inr (inr f) ↦
          elim (Option-cases (k.pause 500_000_000 (k.get_status namespace name s.0).1).0) [
            | inr (x, p) ↦ rw (b, f, p, wait_loop) (goes_on _ _ _ _ (turn_again _ f) (gives_up _ x))
            | inl p ↦
                rw (b, f, p, wait_loop)
                  (pending_first _ _ _ (turn_again _ f) (wait_loop-Reports fuel deadline _))
          ]
    ]
  ]

module _ {S : Type 0} (k : Lifecycle S)
    (reading_takes_time : (namespace name : String) (s : S)
      → k.clock s ≤ k.clock (k.get_status namespace name s).1)
    (pausing_takes_time : (d : ℕ) (s : S)
      → (k.pause d s).0 ≡ none
      → k.clock s + d ≤ k.clock (k.pause d s).1)
    (namespace name : String) where
  wait_until-Waits :
      (s : S × List Act)
      → Waits s.1
          (wait_until (recording k) (k.clock s.0 + 300_000_000_000) namespace name s).0
          (wait_until (recording k) (k.clock s.0 + 300_000_000_000) namespace name s).1.1
  wait_until-Waits s =
      let (r, e, same) =
        wait_until_ends (recording k) (λ ns n s. reading_takes_time ns n s.0)
          (λ d s. pausing_takes_time d s.0) namespace name s in
      let report : Reports k namespace name s.1 (some r) =
        rw e at (wait_loop-Reports k namespace name 602 (k.clock s.0 + 300_000_000_000) s) in
      rw same report

  -- The wait for a pod ends, and it succeeds exactly where the last status that it read is that of a
  -- running pod whose container with-stdio is ready: every status before could not be read or was
  -- neither ready nor final, a final one ends it with an error, and so may its deadline or the context.
  -- It is asked that the clock does not go back while a pod is read, and that a pause that is not cut
  -- short takes its time.
  pub wait_for_pod_running-Waits :
      (s : S × List Act)
      → Waits s.1
          (wait_for_pod_running (recording k) namespace name s).0
          (wait_for_pod_running (recording k) namespace name s).1.1
  unfolding wait_for_pod_running
  wait_for_pod_running-Waits s = elim (Result-cases (k.new_client s.0).0) [
    | inl (u, f) ↦ rw f (wait_until-Waits ((k.new_client s.0).1, s.1))
    | inr (x, f) ↦ rw f (gives_up s.1 x)
  ]
