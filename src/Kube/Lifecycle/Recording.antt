-- ===== src/Kube/Lifecycle/Recording.antt =====
-- The operations of pkg/kube/runner_pod.go over an API server that keeps what it is asked.
use mcp_adapter_engram.Base.{String, Option, List, ◌∷◌, Result}
use mcp_adapter_engram.Kube.Lifecycle.{Lifecycle, PodStatus}

-- A status that was read, or what was to be deleted: a pod with its propagation policy, a secret.
pub data Act : Type 0 where
  reads : Result PodStatus → Act
  deletes_pod : String → String → Option String → Act
  deletes_secret : String → String → Act

abbrev pub recording : {S : Type 0} → Lifecycle S → Lifecycle (S × List Act)
recording k = record {
  new_client = λ s. let (r, t) = k.new_client s.0 in (r, (t, s.1));
  get_status = λ ns name s. let (r, t) = k.get_status ns name s.0 in (r, (t, reads r ∷ s.1));
  get_pod = λ ns name s. let (r, t) = k.get_pod ns name s.0 in (r, (t, s.1));
  delete_pod = λ ns name policy s.
      let (r, t) = k.delete_pod ns name policy s.0 in (r, (t, deletes_pod ns name policy ∷ s.1));
  delete_secret = λ ns name s.
      let (r, t) = k.delete_secret ns name s.0 in (r, (t, deletes_secret ns name ∷ s.1));
  list_pods = λ ns labels s. let (r, t) = k.list_pods ns labels s.0 in (r, (t, s.1));
  clock = λ s. k.clock s.0;
  pause = λ d s. let (e, t) = k.pause d s.0 in (e, (t, s.1));
  get_env = k.get_env;
  pod_namespace = k.pod_namespace;
}
