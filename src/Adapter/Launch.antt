-- ===== src/Adapter/Launch.antt =====
-- pkg/adapter/handler.go: the runner pod of a start over stdio.
use mcp_adapter_engram.Base.{
  String, ◌<>◌, Bool, [], if◌then◌else◌, ℤ, pos, Result, ok, err, message, error_text,
}
use mcp_adapter_engram.Base.Exec.{Exec, pure, ◌>>=◌, ◌>>◌}
use mcp_adapter_engram.Text.{is_empty}
use mcp_adapter_engram.Config.{StdioConfig}
use mcp_adapter_engram.Kube.Runner.{Cluster, ensure_runner_pod, RunnerPodSpec}
use mcp_adapter_engram.Kube.Lifecycle.{
  delete_runner_pod, Lifecycle, reap_old_owned_runner_pods, wait_for_pod_running,
}
use mcp_adapter_engram.Adapter.Secrets.{
  build_env_for_runner, default_secret_bucket, merge_maps, resolve_secret_name, System,
}
use mcp_adapter_engram.Adapter.Naming.{
  base_name, label_owner, resolve_namespace, resolve_pod_name, runner_annotations, runner_labels,
  Sdk,
}

-- What the start-up asks of pkg/kube.
pub record Runners (X S : Type 0) : Type 0 where
  pub ensure : RunnerPodSpec X → Exec S (Bool × String)
  pub wait : String → String → Exec S (Unit {0})
  pub delete : String → String → String → Exec S (Unit {0})
  pub reap : String → String → ℤ → Exec S (Unit {0})

-- By its functions.
abbrev pub runners_of : {X : Type 0} (k : Cluster X) → Lifecycle k.State → Runners X k.State
runners_of k life = record {
  ensure = ensure_runner_pod k;
  wait = wait_for_pod_running life;
  delete = delete_runner_pod life;
  reap = reap_old_owned_runner_pods life;
}

module _ {X S : Type 0} (pods : Runners X S) (sdk : Sdk) (sys : System)
    (stdio : StdioConfig X) where
  unfoldable pub runner_pod_name : String
  runner_pod_name = sdk.compose_name (base_name sdk) "stdio"

  -- The bound secret is used directly unless a copy is asked for.
  unfoldable pub existing_secret : String
  existing_secret =
      if stdio.use_ephemeral_secret then "" else resolve_secret_name sys default_secret_bucket

  unfoldable pub runner_spec : RunnerPodSpec X
  runner_spec = record {
    namespace = resolve_namespace sdk;
    name = runner_pod_name;
    image = stdio.image;
    pull_policy = stdio.image_pull_policy;
    command = stdio.command;
    args = stdio.args;
    env = if is_empty existing_secret then build_env_for_runner sys else [];
    resources = stdio.resources;
    security = stdio.security;
    node_selector = stdio.node_selector;
    tolerations = stdio.tolerations;
    labels = merge_maps (runner_labels sdk (label_owner sdk)) stdio.pod_labels;
    annotations = merge_maps (runner_annotations sdk) stdio.pod_annotations;
    owner_pod_name = resolve_pod_name sdk;
    use_ephemeral_secret = stdio.use_ephemeral_secret;
    existing_env_secret_name = existing_secret;
    existing_env_keys = [];
    termination_grace_period_seconds = stdio.termination_grace_period_seconds;
  }

  abbrev with_prefix : {A : Type 0} → String → Result A × S → Result A × S
  with_prefix text (ok a, s) = (ok a, s)
  with_prefix text (err e, s) = (err (message (text <> error_text e)), s)

  abbrev prefixed : {A : Type 0} → String → Exec S A → Exec S A
  prefixed text m s = with_prefix text (m s)

  unfoldable pub ensure_and_wait : Exec S String
  ensure_and_wait = do
    made ← prefixed "ensure runner pod: " (pods.ensure runner_spec)
    prefixed "runner pod not running: " (pods.wait (resolve_namespace sdk) runner_pod_name)
    pure made.1

  -- Old pods are reaped, then the pod is made, unless it is there, and waited for. What comes back is
  -- the name of the ephemeral secret.
  unfoldable pub start_runner : Exec S String
  start_runner s =
      ensure_and_wait
        (pods.reap (resolve_namespace sdk) (label_owner sdk) (pos 7_200_000_000_000) s).1
