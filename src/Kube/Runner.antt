-- ===== src/Kube/Runner.antt =====
-- pkg/kube/runner_pod.go: creating the runner pod and the secret with its environment.
pub mod Env
pub mod Answers
pub mod Ensure
use mcp_adapter_engram.Base.{
  ℕ, String, ◌<>◌, Bool, true, false, ◌&&◌, ◌||◌, not, Option, none, some, List, [], ◌∷◌,
  if◌then◌else◌, ℤ, Map, insert, copy_into, Result, ok, err, Error, message, error_text,
}
use mcp_adapter_engram.Kube.Hash.{Digest, spec_hash}
use mcp_adapter_engram.Kube.Labels.{common_labels}
use mcp_adapter_engram.Kube.Resources.{
  WorkloadResources, WorkloadSecurity, ResourceRequirements, SecurityContext,
  build_resource_requirements, build_security_context,
}
use mcp_adapter_engram.Base.Exec.{Exec, pure, raise, ◌>>=◌, ◌>>◌}
use mcp_adapter_engram.Text.{is_empty}

-- `metav1.OwnerReference` to a pod.
pub record OwnerRef : Type 0 where
  pub name : String
  pub uid : String

-- `RunnerPodSpec`, with tolerations of a type X.
pub record RunnerPodSpec (X : Type 0) : Type 0 where
  pub namespace : String
  pub name : String
  pub image : String
  pub pull_policy : String
  pub command : List String
  pub args : List String
  pub env : Map String
  pub resources : Option WorkloadResources
  pub security : Option WorkloadSecurity
  pub node_selector : Map String
  pub tolerations : List X
  pub labels : Map String
  pub annotations : Map String
  pub owner_pod_name : String
  pub use_ephemeral_secret : Bool
  pub existing_env_secret_name : String
  pub existing_env_keys : Map String
  pub termination_grace_period_seconds : Option ℤ

-- `corev1.EnvVar`: a value in the pod itself, or a key of a secret.
pub data EnvVar : Type 0 where
  plain : String → String → EnvVar
  from_secret_key : String → String → String → EnvVar

pub record Secret : Type 0 where
  pub namespace : String
  pub name : String
  pub labels : Map String
  pub data_map : Map String
  pub owner : Option OwnerRef

-- The pod's one container is part of it, with its standard input open; `env_from` names secrets.
pub record Pod (X : Type 0) : Type 0 where
  pub namespace : String
  pub name : String
  pub labels : Map String
  pub annotations : Map String
  pub image : String
  pub pull_policy : String
  pub env : List EnvVar
  pub env_from : List String
  pub owner : Option OwnerRef
  pub restart_policy : String
  pub node_selector : Map String
  pub tolerations : List X
  pub termination_grace_period_seconds : Option ℤ
  pub container : String
  pub command : List String
  pub args : List String
  pub resources : ResourceRequirements String
  pub security_context : Option SecurityContext

-- The API server, over its state.
pub record Cluster (X : Type 0) : Type 1 where
  pub State : Type 0
  -- `sdkk8s.NewClient`
  pub new_client : Exec State (Unit {0})
  -- `k.Get` of a pod by namespace and name: its name and UID
  pub get_pod : String → String → Exec State OwnerRef
  pub create_secret : Secret → Exec State (Unit {0})
  pub create_pod : Pod X → Exec State (Unit {0})
  -- `resource.ParseQuantity`: the quantity's canonical text, none for an error
  pub parse_quantity : String → Option String
  -- `os.Getenv("BUBU_STEPRUN_NAME")`, and what `SpecHash` uses
  pub step_run_name : String
  pub digest : Digest (RunnerPodSpec X)

abbrev key_vars : String → Map String → List EnvVar
key_vars secret [] = []
key_vars secret ((env_name, key_name) ∷ keys) =
    from_secret_key env_name secret key_name ∷ key_vars secret keys

abbrev pub plain_vars : Map String → List EnvVar
plain_vars [] = []
plain_vars ((k, v) ∷ env) = plain k v ∷ plain_vars env

abbrev pub is_empty_map : Map String → Bool
is_empty_map [] = true
is_empty_map (kv ∷ m) = false

-- What `buildEnvSources` returns: the ephemeral secret's name, empty for none, and the sources.
pub record EnvSources : Type 0 where
  pub secret_name : String
  pub env_from : List String
  pub env : List EnvVar

abbrev wrap_error : {S A : Type 0} → String → Result A × S → Result A × S
wrap_error prefix (ok a, s) = (ok a, s)
wrap_error prefix (err e, s) = (err (message (prefix <> error_text e)), s)

abbrev wrapped : {S A : Type 0} → String → Exec S A → Exec S A
wrapped prefix m s = wrap_error prefix (m s)

module _ {X : Type 0} (k : Cluster X) (spec : RunnerPodSpec X) where
  unfoldable pub ephemeral_secret : Option OwnerRef → Secret
  ephemeral_secret owner = record {
    namespace = spec.namespace;
    name = spec.name <> "-env";
    labels = ("bubustack.io/ownerPod", spec.owner_pod_name) ∷ [];
    data_map = spec.env;
    owner = owner;
  }

  unfoldable pub existing_sources : EnvSources
  existing_sources = record {
    secret_name = "";
    env_from =
        if is_empty_map spec.existing_env_keys then spec.existing_env_secret_name ∷ [] else [];
    env = key_vars spec.existing_env_secret_name spec.existing_env_keys;
  }

  unfoldable pub build_env_sources : Option OwnerRef → Exec k.State EnvSources
  build_env_sources owner =
      if not (is_empty spec.existing_env_secret_name) && not spec.use_ephemeral_secret
      then pure existing_sources
      else if spec.use_ephemeral_secret && not (is_empty_map spec.env)
      then (do
        wrapped "create ephemeral secret: " (k.create_secret (ephemeral_secret owner))
        pure (record {
          secret_name = spec.name <> "-env";
          env_from = (spec.name <> "-env") ∷ [];
          env = [];
        }))
      else pure (record { secret_name = ""; env_from = []; env = plain_vars spec.env })

  unfoldable pub build_labels : Map String
  build_labels =
      let labels = copy_into (common_labels "") spec.labels in
      if is_empty k.step_run_name
      then labels
      else insert "bubustack.io/stepRun" k.step_run_name labels

  unfoldable pub build_annotations : Map String
  build_annotations =
      insert "mcp.bubustack.io/spec-hash" (spec_hash k.digest spec) (copy_into [] spec.annotations)

  unfoldable pub build_runner_pod : EnvSources → Option OwnerRef → Pod X
  build_runner_pod sources owner = record {
    namespace = spec.namespace;
    name = spec.name;
    labels = build_labels;
    annotations = build_annotations;
    image = spec.image;
    pull_policy = spec.pull_policy;
    env = sources.env;
    env_from = sources.env_from;
    owner = owner;
    restart_policy = "Never";
    node_selector = spec.node_selector;
    tolerations = spec.tolerations;
    termination_grace_period_seconds = spec.termination_grace_period_seconds;
    container = "with-stdio";
    command = spec.command;
    args = spec.args;
    resources = build_resource_requirements k.parse_quantity spec.resources;
    security_context = build_security_context spec.security;
  }

  unfoldable pub get_owner_ref : Exec k.State (Option OwnerRef)
  get_owner_ref =
      if is_empty spec.owner_pod_name
      then pure none
      else (do ref ← k.get_pod spec.namespace spec.owner_pod_name; pure (some ref))

  abbrev is_success : Result OwnerRef × k.State → Result Bool × k.State
  is_success (ok ref, s) = (ok true, s)
  is_success (err e, s) = (ok false, s)

  unfoldable pub pod_exists : Exec k.State Bool
  pod_exists s = is_success (k.get_pod spec.namespace spec.name s)

  unfoldable pub create_runner_pod : Option OwnerRef → Exec k.State (Bool × String)
  create_runner_pod owner = do
    sources ← build_env_sources owner
    wrapped "create runner pod: " (k.create_pod (build_runner_pod sources owner))
    pure (true, sources.secret_name)

  -- Unless there is one.
  unfoldable pub create_unless : Option OwnerRef → Bool → Exec k.State (Bool × String)
  create_unless owner true = pure (false, "")
  create_unless owner false = create_runner_pod owner

  unfoldable pub ensure_runner_pod : Exec k.State (Bool × String)
  ensure_runner_pod =
      if is_empty spec.namespace || is_empty spec.name
      then raise (message "namespace and name are required")
      else if is_empty spec.image
      then raise (message "stdio.image is required")
      else (do k.new_client; owner ← get_owner_ref; exists ← pod_exists; create_unless owner exists)
