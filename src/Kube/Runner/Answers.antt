-- ===== src/Kube/Runner/Answers.antt =====
-- How `EnsureRunnerPod` of pkg/kube/runner_pod.go may end, by what the cluster answers.
use mcp_adapter_engram.Base.{
  String, ◌<>◌, ◌≡◌, ◌⊎◌, Bool, true, false, ◌&&◌, ◌||◌, not, Option, none, some, List, Result, ok,
  err, Error, message, error_text, if◌then◌else◌,
}
use Prim.Native.String.{[], ◌∷◌}
use mathlib.Core.List.{[], ◌∷◌}
use mcp_adapter_engram.Text.{is_empty}
use mcp_adapter_engram.Kube.Runner.{
  build_runner_pod, Cluster, plain_vars, ephemeral_secret, EnvSources, existing_sources,
  is_empty_map, OwnerRef, Pod, RunnerPodSpec, Secret,
}

pub data Creation (X : Type 0) : Type 0 where
  secret : Secret → Creation X
  pod : Pod X → Creation X

-- A cluster that keeps what it was asked to create, the last first.
abbrev pub recording : {X : Type 0} → Cluster X → Cluster X
recording {X} k = record {
  State = k.State × List (Creation X);
  new_client = λ s. let (r, t) = k.new_client s.0 in (r, (t, s.1));
  get_pod = λ ns name s. let (r, t) = k.get_pod ns name s.0 in (r, (t, s.1));
  create_secret = λ x s. let (r, t) = k.create_secret x s.0 in (r, (t, secret x ∷ s.1));
  create_pod = λ p s. let (r, t) = k.create_pod p s.0 in (r, (t, pod p ∷ s.1));
  step_run_name = k.step_run_name;
  parse_quantity = k.parse_quantity;
  digest = k.digest;
}

module _ {X : Type 0} (k : Cluster X) (spec : RunnerPodSpec X) where
  abbrev pub wants_secret : Bool
  wants_secret = spec.use_ephemeral_secret && not (is_empty_map spec.env)

  -- Where the environment of the pod comes from: a secret of its own, the existing one, or plainly.
  abbrev pub sources : EnvSources
  sources =
      if wants_secret
      then record {
        secret_name = spec.name <> "-env";
        env_from = (spec.name <> "-env") ∷ [];
        env = [];
      }
      else if not (is_empty spec.existing_env_secret_name) && not spec.use_ephemeral_secret
      then existing_sources (recording k) spec
      else record { secret_name = ""; env_from = []; env = plain_vars spec.env }

  abbrev pub secret_for : Option OwnerRef → Secret
  secret_for owner = ephemeral_secret (recording k) spec owner

  abbrev pub pod_for : Option OwnerRef → Pod X
  pod_for owner = build_runner_pod (recording k) spec sources owner

  -- The creations once the secret has been asked for, if it is wanted.
  abbrev pub secrets_of : Option OwnerRef → List (Creation X) → List (Creation X)
  secrets_of owner log = if wants_secret then secret (secret_for owner) ∷ log else log

  abbrev pub IsNamed : Type 0
  IsNamed = (is_empty spec.namespace || is_empty spec.name) ≡ false

  -- What the cluster answers to each question, in the order in which they are put.
  module _ (s : k.State) where
    abbrev pub connected : k.State
    connected = (k.new_client s).1

    abbrev pub owner_answer : Result OwnerRef
    owner_answer = (k.get_pod spec.namespace spec.owner_pod_name connected).0

    abbrev pub owner_asked : k.State
    owner_asked =
        if is_empty spec.owner_pod_name
        then connected
        else (k.get_pod spec.namespace spec.owner_pod_name connected).1

    abbrev pub pod_answer : Result OwnerRef
    pod_answer = (k.get_pod spec.namespace spec.name owner_asked).0

    abbrev pub pod_asked : k.State
    pod_asked = (k.get_pod spec.namespace spec.name owner_asked).1

    abbrev pub secret_answer : Option OwnerRef → Result (Unit {0})
    secret_answer owner = (k.create_secret (secret_for owner) pod_asked).0

    abbrev pub secret_asked : Option OwnerRef → k.State
    secret_asked owner =
        if wants_secret then (k.create_secret (secret_for owner) pod_asked).1 else pod_asked

    abbrev pub creation_answer : Option OwnerRef → Result (Unit {0})
    creation_answer owner = (k.create_pod (pod_for owner) (secret_asked owner)).0

    -- The owner, as the cluster knows it.
    pub data IsOwner : Option OwnerRef → Type 0 where
      unowned : is_empty spec.owner_pod_name ≡ true → IsOwner none
      owned :
          (ref : OwnerRef)
          → is_empty spec.owner_pod_name ≡ false
          → owner_answer ≡ ok ref
          → IsOwner (some ref)

    -- The specification is complete, and there is a client.
    abbrev pub Accepts : Type 0
    Accepts = IsNamed × (is_empty spec.image ≡ false) × ((k.new_client s).0 ≡ ok tt)

    -- Why nothing can be made: the first of these.
    pub data Refuses : Error → Type 0 where
      unnamed :
          (is_empty spec.namespace || is_empty spec.name) ≡ true
          → Refuses (message "namespace and name are required")
      without_image :
          IsNamed → is_empty spec.image ≡ true → Refuses (message "stdio.image is required")
      unconnected :
          (e : Error)
          → IsNamed
          → is_empty spec.image ≡ false
          → (k.new_client s).0 ≡ err e
          → Refuses e
      owner_unknown :
          (e : Error)
          → Accepts
          → is_empty spec.owner_pod_name ≡ false
          → owner_answer ≡ err e
          → Refuses e

    -- The ways in which the creations before grow into those after, with what is returned and with the
    -- answers of the cluster that lead there.
    pub data Creates (before : List (Creation X))
        : Result (Bool × String) → List (Creation X) → Type 0 where
      fails : (e : Error) → Refuses e → Creates before (err e) before
      exists :
          (owner : Option OwnerRef) (ref : OwnerRef)
          → Accepts
          → IsOwner owner
          → pod_answer ≡ ok ref
          → Creates before (ok (false, "")) before
      fails_with_secret :
          (owner : Option OwnerRef) (missing e : Error)
          → Accepts
          → IsOwner owner
          → pod_answer ≡ err missing
          → wants_secret ≡ true
          → secret_answer owner ≡ err e
          → Creates before
              (err (message ("create ephemeral secret: " <> error_text e)))
              (secret (secret_for owner) ∷ before)
      fails_with_pod :
          (owner : Option OwnerRef) (missing e : Error)
          → Accepts
          → IsOwner owner
          → pod_answer ≡ err missing
          → (wants_secret ≡ false) ⊎ (secret_answer owner ≡ ok tt)
          → creation_answer owner ≡ err e
          → Creates before
              (err (message ("create runner pod: " <> error_text e)))
              (pod (pod_for owner) ∷ secrets_of owner before)
      created :
          (owner : Option OwnerRef) (missing : Error)
          → Accepts
          → IsOwner owner
          → pod_answer ≡ err missing
          → (wants_secret ≡ false) ⊎ (secret_answer owner ≡ ok tt)
          → creation_answer owner ≡ ok tt
          → Creates before
              (ok (true, sources.secret_name))
              (pod (pod_for owner) ∷ secrets_of owner before)
