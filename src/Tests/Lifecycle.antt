-- ===== src/Tests/Lifecycle.antt =====
-- Waiting, deletion and reaping of pkg/kube/runner_pod.go, for a pod that runs after one second.
use mcp_adapter_engram.Base.{
  ℕ, ◌+◌, ◌≡◌, if◌then◌else◌, ltb, true, none, some, [], ◌∷◌, ok, Result, arith,
}
use mcp_adapter_engram.Kube.Lifecycle.{
  delete_runner_pod, Lifecycle, PodStatus, wait_for_pod_running, wait_loop, wait_until,
}
use mcp_adapter_engram.Kube.Lifecycle.Recording.{recording}
use mcp_adapter_engram.Kube.Lifecycle.Waiting.{wait_until_ends}
use mcp_adapter_engram.Kube.Lifecycle.Outcome.{Waits, wait_for_pod_running-Waits}
use mcp_adapter_engram.Kube.Lifecycle.Deletion.{Deletes, delete_runner_pod-Deletes}

abbrev status : ℕ → PodStatus
status now =
    if ltb now 1_000_000_000 then record { phase = "Pending"; containers = [] } else record {
      phase = "Running";
      containers = record { name = "with-stdio"; ready = true } ∷ [];
    }

-- The state is the clock.
abbrev pub site : Lifecycle ℕ
site = record {
  new_client = λ s. (ok tt, s);
  get_status = λ ns name s. (ok (status s), s);
  get_pod = λ ns name s. (ok (record { name = name; uid = "u" }), s);
  delete_pod = λ ns name policy s. (ok tt, s);
  delete_secret = λ ns name s. (ok tt, s);
  list_pods = λ ns labels s. (
    ok (
        record { namespace = ns; name = "old"; created = 3 }
        ∷ record { namespace = ns; name = "new"; created = 90 }
        ∷ []),
    s,
  );
  clock = λ s. s;
  pause = λ d s. (none, s + d);
  get_env = λ name. "";
  pod_namespace = "default";
}

wait_until_ends_example :
    (r : Result (Unit {0}) × ℕ) × (wait_loop site 602 (7 + 300_000_000_000) "ns" "runner" 7
      ≡ some r)
    × (wait_until site (7 + 300_000_000_000) "ns" "runner" 7 ≡ r)
wait_until_ends_example =
    wait_until_ends site (λ ns n s. omega arith) (λ d s e. omega arith) "ns" "runner" 7

wait_for_pod_running-Waits_example :
    Waits []
      (wait_for_pod_running (recording site) "ns" "runner" (7, [])).0
      (wait_for_pod_running (recording site) "ns" "runner" (7, [])).1.1
wait_for_pod_running-Waits_example =
    wait_for_pod_running-Waits site (λ ns n s. omega arith) (λ d s e. omega arith) "ns" "runner"
      (7, [])

delete_runner_pod-Deletes_example :
    Deletes "ns" "runner" "runner-env" []
      (delete_runner_pod (recording site) "ns" "runner" "runner-env" (7, [])).0
      (delete_runner_pod (recording site) "ns" "runner" "runner-env" (7, [])).1.1
delete_runner_pod-Deletes_example =
    delete_runner_pod-Deletes site "ns" "runner" "runner-env" (7, [])
