-- ===== src/Kube/Deploy.antt =====
-- pkg/kube/client.go and pkg/kube/ensure.go: a deployment of an MCP server and the service before it.
pub mod Applied
use mcp_adapter_engram.Base.{
  String, Bool, true, false, Option, none, some, List, [], ◌∷◌, if◌then◌else◌, Map, lookup, insert,
  copy_into, ℤ, pos, Result, ok, err, message,
}
use mcp_adapter_engram.Base.Exec.{Exec, raise, ◌>>=◌, ◌>>◌}
use mcp_adapter_engram.Text.{is_empty}
use mcp_adapter_engram.Kube.Hash.{Digest, spec_hash}
use mcp_adapter_engram.Kube.Labels.{common_labels}
use mcp_adapter_engram.Kube.Runner.{EnvVar, plain_vars}

-- `EnsureSpec`. Values of corev1 and appsv1 that are only handed on (resources, security context,
-- probes, strategy) are of a type O.
pub record EnsureSpec (O : Type 0) : Type 0 where
  pub engram_name : String
  pub namespace : String
  pub image : String
  pub image_pull_policy : String
  pub env : Map String
  pub env_from_buckets : List String
  pub resources : O
  pub annotations : Map String
  pub labels : Map String
  pub node_selector : Map String
  pub tolerations : List String
  pub service_name : String
  pub service_type : String
  pub service_port : ℤ
  pub security : Option O
  pub strategy : Option O
  pub headless : Bool
  pub service_annotations : Map String
  pub service_labels : Map String
  pub service_account_name : String
  pub automount_service_account_token : Option Bool
  pub liveness_probe : Option O
  pub readiness_probe : Option O
  pub startup_probe : Option O

-- `appsv1.Deployment` with its one container.
pub record Deployment (O : Type 0) : Type 0 where
  pub namespace : String
  pub name : String
  pub resource_version : String
  pub labels : Map String
  pub annotations : Map String
  pub replicas : ℤ
  pub match_labels : Map String
  pub template_labels : Map String
  pub template_annotations : Map String
  pub service_account_name : String
  pub automount_service_account_token : Option Bool
  pub node_selector : Map String
  pub container : String
  pub image : String
  pub image_pull_policy : String
  pub container_port : ℤ
  pub env : List EnvVar
  pub resources : O
  pub security_context : Option O
  pub liveness_probe : Option O
  pub readiness_probe : Option O
  pub startup_probe : Option O
  -- none for the zero value
  pub strategy : Option O

-- `corev1.Service` with its one port.
pub record Service : Type 0 where
  pub namespace : String
  pub name : String
  pub resource_version : String
  pub labels : Map String
  pub annotations : Map String
  pub service_type : String
  pub cluster_ip : String
  pub selector : Map String
  pub port_name : String
  pub port : ℤ
  pub target_port : ℤ

-- The API server as `client.Client`, over its state. `Get` gives what the code reads: the version,
-- and the cluster IP of a service.
pub record Api (O S : Type 0) : Type 0 where
  pub get_deployment : String → String → Exec S String
  pub create_deployment : Deployment O → Exec S (Unit {0})
  pub update_deployment : Deployment O → Exec S (Unit {0})
  pub get_service : String → String → Exec S (String × String)
  pub create_service : Service → Exec S (Unit {0})
  pub update_service : Service → Exec S (Unit {0})
  -- what `SpecHash` uses
  pub digest : Digest (EnsureSpec O)

-- No variables give nil, which is the empty list here. Go visits a map in any order: the list may be
-- in any.
unfoldable pub to_env_vars : Map String → List EnvVar
to_env_vars env = plain_vars env

unfoldable pub new_service : String → String → ℤ → Map String → Service
new_service ns name port selector = record {
  namespace = ns;
  name = name;
  resource_version = "";
  labels = [];
  annotations = [];
  service_type = "ClusterIP";
  cluster_ip = "";
  selector = selector;
  port_name = "http";
  port = port;
  target_port = port;
}

abbrev instance_or : Option String → String → Map String → Map String
instance_or (some v) name labels = labels
instance_or none name labels = insert "bubustack.io/engram-instance" name labels

-- The labels of the deployment and of its pods.
unfoldable pub deployment_labels : {O : Type 0} → EnsureSpec O → Map String
deployment_labels s =
    let labels = copy_into (common_labels s.engram_name) s.labels in
    instance_or (lookup "bubustack.io/engram-instance" labels) s.engram_name labels

unfoldable pub service_of : {O : Type 0} → EnsureSpec O → Service
service_of s = record {
  namespace = s.namespace;
  name = if is_empty s.service_name then s.engram_name else s.service_name;
  resource_version = "";
  labels = s.service_labels;
  annotations = s.service_annotations;
  service_type = s.service_type;
  cluster_ip = if s.headless then "None" else "";
  selector = deployment_labels s;
  port_name = "http";
  port = s.service_port;
  target_port = s.service_port;
}

module _ {O S : Type 0} (api : Api O S) where
  unfoldable pub deployment_of : EnsureSpec O → Deployment O
  deployment_of s = record {
    namespace = s.namespace;
    name = s.engram_name;
    resource_version = "";
    labels = deployment_labels s;
    annotations = ("mcp.bubustack.io/spec-hash", spec_hash api.digest s) ∷ [];
    replicas = pos 1;
    match_labels = deployment_labels s;
    template_labels = deployment_labels s;
    template_annotations = s.annotations;
    service_account_name = s.service_account_name;
    automount_service_account_token = s.automount_service_account_token;
    node_selector = s.node_selector;
    container = "mcp-server";
    image = s.image;
    image_pull_policy = s.image_pull_policy;
    container_port = s.service_port;
    env = to_env_vars s.env;
    resources = s.resources;
    security_context = s.security;
    liveness_probe = s.liveness_probe;
    readiness_probe = s.readiness_probe;
    startup_probe = s.startup_probe;
    strategy = s.strategy;
  }

  -- Any error of `Get` counts as absence.
  abbrev put_deployment : Deployment O → Result String × S → Result (Unit {0}) × S
  put_deployment dep (err e, s) = api.create_deployment dep s
  put_deployment dep (ok version, s) =
      api.update_deployment (record dep { resource_version = version }) s

  unfoldable pub ensure_deployment : Option (Deployment O) → Exec S (Unit {0})
  ensure_deployment none = raise (message "deployment is nil")
  ensure_deployment (some dep) =
      λ s. put_deployment dep (api.get_deployment dep.namespace dep.name s)

  -- A cluster IP that was given is kept.
  abbrev put_service : Service → Result (String × String) × S → Result (Unit {0}) × S
  put_service svc (err e, s) = api.create_service svc s
  put_service svc (ok (version, ip), s) =
      api.update_service
        (record svc {
          resource_version = version;
          cluster_ip = if is_empty ip then svc.cluster_ip else ip;
        })
        s

  unfoldable pub ensure_service : Option Service → Exec S (Unit {0})
  ensure_service none = raise (message "service is nil")
  ensure_service (some svc) = λ s. put_service svc (api.get_service svc.namespace svc.name s)

  unfoldable pub ensure : EnsureSpec O → Exec S (Unit {0})
  ensure spec = do
    ensure_deployment (some (deployment_of spec))
    ensure_service (some (service_of spec))
