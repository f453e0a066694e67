-- ===== src/Tests/Init.antt =====
-- `Init` of pkg/adapter/handler.go with a runner pod that starts at once.
use mcp_adapter_engram.Base.{
  ℕ, String, ◌<>◌, ◌≡◌, refl, true, false, none, some, List, [], ◌∷◌, ◌++◌, insert, ok, err, Error,
  message, Result, All, lookup, or_else, Option, if◌then◌else◌,
}
use mcp_adapter_engram.Heap.{Decoded}
use mcp_adapter_engram.Text.{
  cut, cut_prefix, is_space, lower_eq, trim_left_by, trim_right_by, trim_space,
}
use mcp_adapter_engram.Config.{Config, StdioConfig}
use mcp_adapter_engram.Mcp.Client.{Client}
use mcp_adapter_engram.Kube.Runner.{
  build_env_sources, build_runner_pod, create_runner_pod, create_unless, ensure_runner_pod,
  get_owner_ref, pod_exists,
}
use mcp_adapter_engram.Kube.Runner.Answers as Made
use mcp_adapter_engram.Kube.Runner.Answers.{Creation}
use mcp_adapter_engram.Kube.Lifecycle.{
  delete_runner_pod, delete_secret_of, has_ready, is_pod_ready, Lifecycle, owned_by, turn,
  wait_for_pod_running, wait_loop, wait_until,
}
use mcp_adapter_engram.Kube.Lifecycle.Recording.{Act}
use mcp_adapter_engram.Adapter.Secrets.{
  build_env_for_runner, expand_env, expand_secret_bucket, first_non_empty,
  resolve_secret_descriptor, System,
}
use mcp_adapter_engram.Adapter.Naming.{
  base_name, label_owner, resolve_namespace, resolve_pod_name, Sdk, step_run_id, story_info,
}
use mcp_adapter_engram.Adapter.Launch.{
  ensure_and_wait, existing_secret, runner_pod_name, Runners, runner_spec, start_runner, runners_of,
}
use mcp_adapter_engram.Adapter.Init.{init_http, delete_runner, handshake, Opening, with_client}
use mcp_adapter_engram.Adapter.Init.Handshake.{
  Greets, recorded_sleep, recording, with_client-Greets,
}
use mcp_adapter_engram.Adapter.Init.Cleanup.{Asks, cleanup_deletes_created, deletion, recorded}
use mcp_adapter_engram.Adapter.Init.Ownership.{build_runner_pod-owned_by}
use mcp_adapter_engram.Tests.Example.{codec, config, not_ready, script}
use mcp_adapter_engram.Mcp.Http.Requests as Sent
use mcp_adapter_engram.Adapter.Init.Requests.{init_http-Sends, Sends, slept}
use mcp_adapter_engram.Tests.Http.{transport}
use mcp_adapter_engram.Tests.Kube.{cluster}
use mcp_adapter_engram.Tests.Lifecycle.{site}
use text.Mathlib.Text.{◌==◌ as str_eq}

abbrev empty_reply : Decoded
empty_reply = not_ready

with_client-Greets_example :
    Greets script
      (λ d s. s)
      {S = ℕ}
      config.mcp
      (λ s. (none, s))
      []
      (script.initialize [] config.mcp.init_client_capabilities
        (ok empty_reply ∷ ok empty_reply ∷ [])).0
      (with_client
        (recording script)
        (recorded_sleep script (λ d s. s))
        config
        "runner"
        (λ s. (none, s))
        (handshake
          (recording script)
          (recorded_sleep script (λ d s. s))
          []
          config.mcp
          (ok empty_reply ∷ ok empty_reply ∷ [], [])))
with_client-Greets_example =
    with_client-Greets script (λ d s. s) ℕ [] config "runner" (λ s. (none, s))
      (ok empty_reply ∷ ok empty_reply ∷ [], [])

abbrev sdk : Sdk
sdk = record {
  load_story_info = some (record {
    story_run_id = "story";
    step_run_id = "step-1";
    step_name = "step";
    step_run_namespace = "ns";
  });
  get_env = λ name. "";
  pod_namespace = "default";
  label_value = λ name. name;
  compose_name = λ base suffix. base <> suffix;
  pod_name_env = "POD_NAME";
  engram_name_env = "ENGRAM";
  story_run_label = "story-run";
  step_run_label = "step-run";
  step_label = "step";
  engram_label = "engram";
  story_run_annotation = "story-run";
  step_annotation = "step";
}

abbrev system : System
system = record {
  getenv = λ name. if str_eq name "SECRET_server" then "env:B_" else "";
  environ = "B_TOKEN=t0" ∷ [];
  read_dir = λ dir. [];
  read_file = λ name. none;
  prefix = "SECRET_";
  quote = λ text. text;
}

abbrev stdio : StdioConfig (Unit {0})
stdio = record {
  image = "image";
  image_pull_policy = "";
  command = [];
  args = [];
  resources = none;
  security = none;
  node_selector = [];
  tolerations = [];
  pod_labels = ("team", "a") ∷ [];
  pod_annotations = [];
  deletion_policy = "delete";
  termination_grace_period_seconds = none;
  use_ephemeral_secret = true;
}

-- The application's name is configured, the owner is not.
abbrev named_stdio : StdioConfig (Unit {0})
named_stdio = record stdio { pod_labels = ("app.kubernetes.io/name", "search") ∷ [] }

abbrev pods : Runners (Unit {0}) ℕ
pods = runners_of cluster site

build_runner_pod-owned_by_example :
    All
      (λ label.
        lookup label.0
          (build_runner_pod cluster
            (runner_spec pods sdk system named_stdio)
            (record { secret_name = ""; env_from = []; env = [] })
            none).labels
        ≡ or_else (lookup label.0 named_stdio.pod_labels) (some label.1))
      (owned_by site (label_owner sdk))
unfolding lookup
build_runner_pod-owned_by_example =
    build_runner_pod-owned_by cluster pods sdk system named_stdio (refl, refl) (refl, refl)
      (refl, refl) (refl, refl) (refl, tt) site
      (record { secret_name = ""; env_from = []; env = [] }) none

-- Pods run at once.
abbrev still : {S : Type 0} → Lifecycle S
still = record {
  new_client = λ s. (ok tt, s);
  get_status = λ ns name s. (
    ok (record {
      phase = "Running";
      containers = record { name = "with-stdio"; ready = true } ∷ [];
    }),
    s,
  );
  get_pod = λ ns name s. (ok (record { name = name; uid = "u" }), s);
  delete_pod = λ ns name policy s. (ok tt, s);
  delete_secret = λ ns name s. (ok tt, s);
  list_pods = λ ns labels s. (ok [], s);
  clock = λ s. 0;
  pause = λ d s. (none, s);
  get_env = λ name. "";
  pod_namespace = "default";
}

abbrev Kept : Type 0
Kept = (ℕ × List (Creation (Unit {0}))) × List Act

-- It fails at all it is asked.
abbrev silent : Client
silent = record {
  State = Kept;
  initialize = λ h caps s. (err (message "silent"), s);
  notify_initialized = λ s. (none, s);
  list_tools = λ s. (err (message "silent"), s);
  call_tool = λ h tool args s. (err (message "silent"), s);
  list_resources = λ s. (err (message "silent"), s);
  read_resource = λ uri s. (err (message "silent"), s);
  get_prompt = λ name s. (err (message "silent"), s);
  pause = λ d s. (none, s);
}

abbrev opening : Opening silent Kept
opening = record {
  open_pod = λ opts s. (ok s, s);
  outside = λ s. s;
  put_back = λ l s. s;
  outside-put_back = λ l s. refl;
}

abbrev start : Result String × Kept
start = start_runner (recorded cluster still) sdk system stdio ((0, []), [])

made : start.0 ≡ ok "step-1stdio-env"
unfolding start_runner ensure_and_wait ensure_runner_pod runner_spec resolve_namespace trim_space
    trim_left_by trim_right_by is_space story_info runner_pod_name base_name resolve_pod_name
    first_non_empty step_run_id get_owner_ref pod_exists create_unless create_runner_pod
    build_env_sources existing_secret build_env_for_runner expand_secret_bucket
    resolve_secret_descriptor expand_env cut cut_prefix insert wait_for_pod_running wait_until
    wait_loop turn is_pod_ready has_ready
made = refl

abbrev asked : Option Error × Kept
asked =
    delete_runner (recorded cluster still) sdk system stdio silent opening (λ d s. s) config []
      "step-1stdio-env" start.1

kept_not : lower_eq stdio.deletion_policy "keep" ≡ false
unfolding lower_eq
kept_not = refl

gone : asked.0 ≡ none
unfolding delete_runner lower_eq delete_runner_pod delete_secret_of
gone = refl

cleanup_deletes_created_example :
    (reaped : Kept) × (new : List (Creation (Unit {0}))) × ((ensure_runner_pod
        (Made.recording cluster)
        (runner_spec (recorded cluster still) sdk system stdio)
        reaped.0).1.1
      ≡ new ++ reaped.0.1)
    × (ensure_and_wait (recorded cluster still) sdk system stdio reaped ≡ start)
    × All (λ x. Asks (deletion x) asked.1.1) new
cleanup_deletes_created_example =
    cleanup_deletes_created cluster still sdk system stdio silent opening (λ d s. s) config []
      ((0, []), []) "step-1stdio-env" start.1 made kept_not gone

abbrev http_config : Config
http_config = record config {
  transport = "streamable_http";
  server = record {
    base_url = "http://mcp/";
    headers = ("X", "1") ∷ [];
    headers_from_secret = ("Authorization", "TOKEN") ∷ [];
  };
}

init_http-Sends_example :
    Sends transport codec
      (λ d s. s)
      system
      http_config
      []
      (0, [])
      (init_http
        (Sent.recording transport)
        codec
        (slept transport (λ d s. s))
        system
        http_config
        []
        (0, []))
init_http-Sends_example = init_http-Sends transport codec (λ d s. s) system http_config [] (0, [])
