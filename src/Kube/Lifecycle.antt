-- ===== src/Kube/Lifecycle.antt =====
-- pkg/kube/runner_pod.go: waiting for the runner pod, deleting it and reaping old ones.
pub mod Waiting
pub mod Recording
pub mod Outcome
pub mod Deletion
use text.Mathlib.Text.{◌==◌ as str_eq}
use mcp_adapter_engram.Base.{
  ℕ, zero, suc, ◌+◌, ltb, String, ◌<>◌, Bool, true, false, ◌&&◌, ◌||◌, Option, none, some, List, [],
  ◌∷◌, if◌then◌else◌, Map, ℤ, pos, negsuc, Result, ok, err, Error, message, error_text,
}
use mcp_adapter_engram.Base.Exec.{Exec, pure, raise, ◌>>=◌, ◌>>◌}
use mcp_adapter_engram.Text.{is_empty}
use mcp_adapter_engram.Kube.Runner.{OwnerRef}

-- What the code reads of a pod's status, `corev1.ContainerStatus` and `corev1.PodStatus`.
pub record ContainerStatus : Type 0 where
  pub name : String
  pub ready : Bool

pub record PodStatus : Type 0 where
  pub phase : String
  pub containers : List ContainerStatus

-- A pod of a list; the time of its creation in nanoseconds since the zero `time.Time`.
pub record ListedPod : Type 0 where
  pub namespace : String
  pub name : String
  pub created : ℕ

-- The API server and the clock, over a state of which nothing is known.
pub record Lifecycle (S : Type 0) : Type 0 where
  -- `sdkk8s.NewClient`
  pub new_client : Exec S (Unit {0})
  -- `k.Get` of a pod
  pub get_status : String → String → Exec S PodStatus
  pub get_pod : String → String → Exec S OwnerRef
  -- `k.Delete` of a pod, with its propagation policy, and of a secret
  pub delete_pod : String → String → Option String → Exec S (Unit {0})
  pub delete_secret : String → String → Exec S (Unit {0})
  -- `k.List` of the pods of a namespace with labels
  pub list_pods : String → Map String → Exec S (List ListedPod)
  -- `time.Now()`, in nanoseconds since the zero `time.Time`
  pub clock : S → ℕ
  -- `select { case <-time.After(d): …; case <-ctx.Done(): … }`
  pub pause : ℕ → S → Option Error × S
  -- `os.Getenv`, and `sdkk8s.ResolvePodNamespace()`
  pub get_env : String → String
  pub pod_namespace : String

unfoldable pub has_ready : List ContainerStatus → Bool
has_ready [] = false
has_ready (cs ∷ rest) = if str_eq cs.name "with-stdio" && cs.ready then true else has_ready rest

unfoldable pub is_pod_ready : PodStatus → Bool
is_pod_ready pod = if str_eq pod.phase "Running" then has_ready pod.containers else false

unfoldable pub is_terminal : PodStatus → Bool
is_terminal pod = str_eq pod.phase "Failed" || str_eq pod.phase "Succeeded"

-- What a round of the loop comes to: success, the end of the pod, or another round.
pub data Turn : Type 0 where
  running : Turn
  completed : String → Turn
  again : Turn

unfoldable pub turn : Result PodStatus → Turn
turn (err e) = again
turn (ok pod) =
    if is_pod_ready pod then running else if is_terminal pod then completed pod.phase else again

-- `p.CreationTimestamp.Time.Before(now.Add(-older_than))`
unfoldable pub is_before_cutoff : ℕ → ℤ → ℕ → Bool
is_before_cutoff now (pos d) created = ltb (created + d) now
is_before_cutoff now (negsuc d) created = ltb created (now + suc d)

module _ {S : Type 0} (k : Lifecycle S) where
  -- `getPod`, as far as the loop looks at the pod
  abbrev pub get_pod_status : String → String → Exec S PodStatus
  get_pod_status namespace name = k.get_status namespace name

  unfoldable pub wait_or_cancel : ℕ → S → Option Error × S
  wait_or_cancel d s = k.pause d s

  -- The loop of `WaitForPodRunning`; none where the fuel is spent.
  unfoldable pub wait_loop : ℕ → ℕ → String → String → S → Option (Result (Unit {0}) × S)
  wait_loop zero deadline namespace name s = none
  wait_loop (suc fuel) deadline namespace name s = elim (ltb deadline (k.clock s)) [
    | true ↦
        some
          (err (message ("timeout waiting for pod " <> namespace <> "/" <> name <> " running")), s)
    | false ↦
        let (found, s1) = get_pod_status namespace name s in
        elim (turn found) [
          | running ↦ some (ok tt, s1)
          | completed phase ↦ some (
            err (message ("pod " <> namespace <> "/" <> name <> " completed with phase " <> phase)),
            s1,
          )
          | again ↦
              let (cancelled, s2) = wait_or_cancel 500_000_000 s1 in
              elim cancelled [
                | some e ↦ some (err e, s2)
                | none ↦ wait_loop fuel deadline namespace name s2
              ]
        ]
  ]

  abbrev from_fuel : S → Option (Result (Unit {0}) × S) → Result (Unit {0}) × S
  from_fuel s none = (err (message "out of fuel"), s)
  from_fuel s (some r) = r

  -- Five minutes hold 600 pauses.
  unfoldable pub wait_until : ℕ → String → String → Exec S (Unit {0})
  wait_until deadline namespace name s = from_fuel s (wait_loop 602 deadline namespace name s)

  unfoldable pub wait_for_pod_running : String → String → Exec S (Unit {0})
  wait_for_pod_running namespace name = do
    k.new_client
    λ s. wait_until (k.clock s + 300_000_000_000) namespace name s

  abbrev as_secret_error : Result (Unit {0}) × S → Result (Unit {0}) × S
  as_secret_error (ok u, s) = (ok u, s)
  as_secret_error (err e, s) = (err (message ("delete ephemeral secret: " <> error_text e)), s)

  unfoldable pub delete_secret_of : String → String → Exec S (Unit {0})
  delete_secret_of namespace secret s =
      if is_empty secret then (ok tt, s) else as_secret_error (k.delete_secret namespace secret s)

  unfoldable pub delete_runner_pod : String → String → String → Exec S (Unit {0})
  delete_runner_pod namespace name secret = do
    k.new_client
    k.delete_pod namespace name (some "Foreground")
    delete_secret_of namespace secret

  -- What the reaper looks for.
  abbrev pub owned_by : String → Map String
  owned_by owner_pod_name =
      ("bubustack.io/ownerPod", owner_pod_name)
      ∷ ("app.kubernetes.io/name", "mcp-adapter-engram")
      ∷ []

  -- Failed deletions are passed over.
  unfoldable pub reap_loop : ℕ → ℤ → List ListedPod → S → S
  reap_loop now older_than [] s = s
  reap_loop now older_than (p ∷ pods) s = elim (is_before_cutoff now older_than p.created) [
    | true ↦ reap_loop now older_than pods (k.delete_pod p.namespace p.name none s).1
    | false ↦ reap_loop now older_than pods s
  ]

  unfoldable pub reap_old_owned_runner_pods : String → String → ℤ → Exec S (Unit {0})
  reap_old_owned_runner_pods namespace owner_pod_name older_than = do
    k.new_client
    pods ← k.list_pods namespace (owned_by owner_pod_name)
    λ s. (ok tt, reap_loop (k.clock s) older_than pods s)

  abbrev named_pod : String → String → Exec S OwnerRef
  named_pod namespace name =
      if is_empty name
      then raise (message "POD_NAME env is not set")
      else (do k.new_client; k.get_pod namespace name)

  unfoldable pub get_own_pod : Exec S OwnerRef
  get_own_pod =
      let ns = k.get_env "POD_NAMESPACE" in
      named_pod (if is_empty ns then k.pod_namespace else ns) (k.get_env "POD_NAME")
