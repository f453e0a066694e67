-- ===== src/Tests/Kube.antt =====
-- The runner pod of pkg/kube/runner_pod.go in a cluster without pods.
use mcp_adapter_engram.Base.{ℕ, ◌≡◌, refl, inl, true, none, [], ◌∷◌, some, All, ok, err, message}
use mcp_adapter_engram.Kube.Runner.{
  build_env_sources, Cluster, ensure_runner_pod, EnvSources, RunnerPodSpec,
}
use mcp_adapter_engram.Kube.Runner.Env.{build_env_sources-IsReference, IsReference}
use mcp_adapter_engram.Kube.Runner.Ensure.{ensure_runner_pod-Creates}
use mcp_adapter_engram.Kube.Runner.Answers.{Creates, recording}

abbrev pub cluster : Cluster (Unit {0})
cluster = record {
  State = ℕ;
  new_client = λ s. (ok tt, s);
  get_pod = λ ns name s. (err (message "not found"), s);
  create_secret = λ x s. (ok tt, s);
  create_pod = λ p s. (ok tt, s);
  step_run_name = "";
  parse_quantity = λ text. some text;
  digest = record { marshal = λ spec. some "{}"; sum256 = λ text. 255 ∷ 1 ∷ [] };
}

abbrev spec : RunnerPodSpec (Unit {0})
spec = record {
  namespace = "default";
  name = "runner";
  image = "image";
  pull_policy = "";
  env = ("TOKEN", "t0") ∷ [];
  labels = [];
  annotations = [];
  owner_pod_name = "";
  use_ephemeral_secret = true;
  existing_env_secret_name = "";
  existing_env_keys = [];
  command = [];
  args = [];
  resources = none;
  security = none;
  node_selector = [];
  tolerations = [];
  termination_grace_period_seconds = none;
}

abbrev sources : EnvSources
sources = record { secret_name = "runner-env"; env_from = "runner-env" ∷ []; env = [] }

built : (build_env_sources cluster spec none 0).0 ≡ ok sources
unfolding build_env_sources
built = refl

build_env_sources-IsReference_example : All IsReference sources.env
build_env_sources-IsReference_example =
    build_env_sources-IsReference cluster spec none 0 (inl refl) built

ensure_runner_pod-Creates_example :
    Creates cluster spec 0 []
      (ensure_runner_pod (recording cluster) spec (0, [])).0
      (ensure_runner_pod (recording cluster) spec (0, [])).1.1
ensure_runner_pod-Creates_example = ensure_runner_pod-Creates cluster spec (0, [])
