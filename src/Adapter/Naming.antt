-- ===== src/Adapter/Naming.antt =====
-- pkg/adapter/handler.go: what the adapter is called, and the labels and annotations of its runner.
use mcp_adapter_engram.Base.{String, Option, none, some, [], ◌∷◌, if◌then◌else◌, Map, insert}
use mcp_adapter_engram.Text.{is_empty, trim_space}
use mcp_adapter_engram.Adapter.Secrets.{first_non_empty}

-- `sdkengram.StoryInfo`, what the adapter reads of it
pub record StoryInfo : Type 0 where
  pub story_run_id : String
  pub step_run_id : String
  pub step_name : String
  pub step_run_namespace : String

-- The SDK: its constants, its naming of labels and pods, and the environment.
pub record Sdk : Type 0 where
  -- `runtime.LoadExecutionContextData`; none for an error
  pub load_story_info : Option StoryInfo
  -- `os.Getenv`, `sdkk8s.ResolvePodNamespace()`
  pub get_env : String → String
  pub pod_namespace : String
  -- `identity.LabelValueFromName`, `naming.ComposeDNS1123WithSuffix`
  pub label_value : String → String
  pub compose_name : String → String → String
  -- `contracts.PodNameEnv`, `EngramNameEnv` and the keys of labels and annotations
  pub pod_name_env : String
  pub engram_name_env : String
  pub story_run_label : String
  pub step_run_label : String
  pub step_label : String
  pub engram_label : String
  pub story_run_annotation : String
  pub step_annotation : String

-- A value is set unless it is empty.
unfoldable pub set_unless_empty : String → String → String → Map String → Map String
set_unless_empty key trimmed value m = if is_empty trimmed then m else insert key value m

abbrev or_zero : Option StoryInfo → StoryInfo
or_zero (some info) = info
or_zero none = record {
  story_run_id = "";
  step_run_id = "";
  step_name = "";
  step_run_namespace = "";
}

module _ (sdk : Sdk) where
  -- With the data that `captureExecutionContext` keeps.
  unfoldable pub story_info : StoryInfo
  story_info = or_zero sdk.load_story_info

  unfoldable pub step_run_id : String
  step_run_id = trim_space story_info.step_run_id

  unfoldable pub step_name : String
  step_name = trim_space story_info.step_name

  unfoldable pub resolve_namespace : String
  resolve_namespace =
      let ns = trim_space story_info.step_run_namespace in
      if is_empty ns then sdk.pod_namespace else ns

  unfoldable pub engram_name : String
  engram_name = trim_space (sdk.get_env sdk.engram_name_env)

  unfoldable pub resolve_pod_name : String
  resolve_pod_name =
      let name = trim_space (sdk.get_env sdk.pod_name_env) in
      if is_empty name then trim_space (sdk.get_env "BUBU_POD_NAME") else name

  unfoldable pub runner_labels : String → Map String
  runner_labels owner =
      let story_run = trim_space story_info.story_run_id in
      set_unless_empty sdk.engram_label engram_name (sdk.label_value engram_name) (
        set_unless_empty sdk.step_label step_name (sdk.label_value step_name) (
          set_unless_empty sdk.step_run_label step_run_id (sdk.label_value step_run_id) (
            set_unless_empty sdk.story_run_label story_run (sdk.label_value story_run) (
              ("bubustack.io/ownerPod", owner)
              ∷ ("app.kubernetes.io/name", "mcp-adapter-engram")
              ∷ []))))

  unfoldable pub runner_annotations : Map String
  runner_annotations =
      let story_run = trim_space story_info.story_run_id in
      set_unless_empty sdk.step_run_label step_run_id step_run_id (
        set_unless_empty sdk.step_annotation step_name step_name
          (set_unless_empty sdk.story_run_annotation story_run story_run []))

  -- The owner in the runner's label, and the name that its own is made from.
  unfoldable pub label_owner : String
  label_owner = first_non_empty (resolve_pod_name ∷ step_run_id ∷ step_name ∷ "mcp-adapter" ∷ [])

  unfoldable pub base_name : String
  base_name =
      let name = trim_space resolve_pod_name in
      if is_empty name then first_non_empty (step_run_id ∷ step_name ∷ "unknown" ∷ []) else name
