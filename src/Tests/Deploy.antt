-- ===== src/Tests/Deploy.antt =====
-- `Ensure` of pkg/kube/ensure.go where there is a service but no deployment.
use mcp_adapter_engram.Base.{
  ℕ, ◌≡◌, refl, true, none, some, [], ◌∷◌, lookup, or_else, if◌then◌else◌, pos, ok, err, message,
}
use text.Mathlib.Text.{◌==◌ as str_eq}
use mcp_adapter_engram.Kube.Labels.{common_labels}
use mcp_adapter_engram.Kube.Deploy.{
  Api, deployment_labels, deployment_of, ensure, EnsureSpec, service_of,
}
use mcp_adapter_engram.Kube.Deploy.Applied.{
  Applies, ensure-Applies, lookup-deployment_labels, recording,
}

abbrev api : Api (Unit {0}) ℕ
api = record {
  get_deployment = λ ns name s. (err (message "not found"), s);
  create_deployment = λ d s. (ok tt, s);
  update_deployment = λ d s. (ok tt, s);
  get_service = λ ns name s. (ok ("7", "10.0.0.1"), s);
  create_service = λ x s. (ok tt, s);
  update_service = λ x s. (ok tt, s);
  digest = record { marshal = λ spec. some "{}"; sum256 = λ text. 255 ∷ 1 ∷ [] };
}

abbrev spec : EnsureSpec (Unit {0})
spec = record {
  engram_name = "search";
  namespace = "ns";
  image = "image";
  image_pull_policy = "";
  env = ("A", "1") ∷ [];
  env_from_buckets = [];
  resources = tt;
  annotations = [];
  labels = ("team", "a") ∷ ("mcp.bubustack.io/type", "proxy") ∷ [];
  node_selector = [];
  tolerations = [];
  service_name = "";
  service_type = "ClusterIP";
  service_port = pos 8080;
  security = none;
  strategy = none;
  headless = true;
  service_annotations = [];
  service_labels = [];
  service_account_name = "";
  automount_service_account_token = none;
  liveness_probe = none;
  readiness_probe = none;
  startup_probe = none;
}

ensure-Applies_example :
    Applies api
      (deployment_of (recording api) spec)
      (service_of spec)
      0
      []
      (ensure (recording api) spec (0, [])).0
      (ensure (recording api) spec (0, [])).1.1
ensure-Applies_example = ensure-Applies api spec (0, [])

lookup-deployment_labels_example :
    lookup "team" (deployment_labels spec)
    ≡ or_else (lookup "team" spec.labels) (
        if str_eq "bubustack.io/engram-instance" "team"
        then some spec.engram_name
        else lookup "team" (common_labels spec.engram_name))
unfolding lookup
lookup-deployment_labels_example = lookup-deployment_labels spec "team" (refl, (refl, tt))
