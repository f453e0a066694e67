-- ===== src/Adapter/Init/Ownership.antt =====
-- The labels by which the reaper of pkg/kube finds the runner pods that pkg/adapter starts.
use text.Mathlib.Text.{◌==◌ as str_eq}
use mcp_adapter_engram.Base.{
  String, ◌≡◌, refl, ◌∙◌, inl, inr, false, Option, none, some, [], ◌∷◌, Map, lookup, copy_into,
  or_else, IsDistinct, IsDistinct-insert, IsDistinct-copy_into, lookup-insert, lookup-copy_into,
  arith, Bool-cases, All,
}
use mcp_adapter_engram.Text.{is_empty}
use mcp_adapter_engram.Config.{StdioConfig}
use mcp_adapter_engram.Kube.Labels.{common_labels}
use mcp_adapter_engram.Kube.Runner.{build_labels, build_runner_pod, Cluster, EnvSources, OwnerRef}
use mcp_adapter_engram.Kube.Lifecycle.{Lifecycle, owned_by}
use mcp_adapter_engram.Adapter.Secrets.{merge_maps, System}
use mcp_adapter_engram.Adapter.Naming.{label_owner, runner_labels, Sdk, set_unless_empty}
use mcp_adapter_engram.Adapter.Launch.{runner_spec, Runners}

-- A key that is none of those the reaper looks for.
abbrev pub IsForeign : String → Type 0
IsForeign key =
    (str_eq key "bubustack.io/ownerPod" ≡ false) × (str_eq key "app.kubernetes.io/name" ≡ false)

or_else-some :
    {A : Type 0} (o : Option A) (a : A) (rest : Option A)
    → or_else (or_else o (some a)) rest ≡ or_else o (some a)
or_else-some none a rest = refl
or_else-some (some b) a rest = refl

lookup-set_unless_empty :
    (key other trimmed value : String) (m : Map String)
    → str_eq other key ≡ false
    → lookup key (set_unless_empty other trimmed value m) ≡ lookup key m
unfolding set_unless_empty
lookup-set_unless_empty key other trimmed value m e =
    ground (arith, Bool-cases (is_empty trimmed), lookup-insert other key value m)

IsDistinct-set_unless_empty :
    (other trimmed value : String) (m : Map String)
    → IsDistinct m
    → IsDistinct (set_unless_empty other trimmed value m)
unfolding set_unless_empty
IsDistinct-set_unless_empty other trimmed value m d = elim (Bool-cases (is_empty trimmed)) [
  | inl b ↦ rw b d
  | inr b ↦ rw b (IsDistinct-insert other value m d)
]

module _ (sdk : Sdk) (owner : String) where
  runner_labels-IsDistinct : IsDistinct (runner_labels sdk owner)
  unfolding runner_labels lookup
  runner_labels-IsDistinct =
      let base : IsDistinct (
          ("bubustack.io/ownerPod", owner)
          ∷ ("app.kubernetes.io/name", "mcp-adapter-engram")
          ∷ []) =
        (refl, (refl, tt)) in
      IsDistinct-set_unless_empty _ _ _ _ (
        IsDistinct-set_unless_empty _ _ _ _ (
          IsDistinct-set_unless_empty _ _ _ _
            (IsDistinct-set_unless_empty _ _ _ _ (refl, (refl, tt)))))

  lookup-runner_labels :
      (key : String)
      → str_eq sdk.story_run_label key ≡ false
      → str_eq sdk.step_run_label key ≡ false
      → str_eq sdk.step_label key ≡ false
      → str_eq sdk.engram_label key ≡ false
      → lookup key (runner_labels sdk owner)
        ≡ lookup key (
            ("bubustack.io/ownerPod", owner)
            ∷ ("app.kubernetes.io/name", "mcp-adapter-engram")
            ∷ [])
  unfolding runner_labels
  lookup-runner_labels key a b c d =
      lookup-set_unless_empty key _ _ _ _ d
      ∙ (lookup-set_unless_empty key _ _ _ _ c
          ∙ (lookup-set_unless_empty key _ _ _ _ b ∙ lookup-set_unless_empty key _ _ _ _ a))

module _ {X S : Type 0} (k : Cluster X) (pods : Runners X S) (sdk : Sdk) (sys : System)
    (stdio : StdioConfig X) (story_run : IsForeign sdk.story_run_label)
    (step_run : IsForeign sdk.step_run_label) (step : IsForeign sdk.step_label)
    (engram : IsForeign sdk.engram_label) (distinct : IsDistinct stdio.pod_labels) where
  -- A label of the adapter's own: the configured one of that key comes first.
  lookup-build_labels :
      (key value : String)
      → str_eq "bubustack.io/stepRun" key ≡ false
      → lookup key (runner_labels sdk (label_owner sdk)) ≡ some value
      → lookup key (build_labels k (runner_spec pods sdk sys stdio))
        ≡ or_else (lookup key stdio.pod_labels) (some value)
  unfolding build_labels runner_spec merge_maps
  lookup-build_labels key value other own =
      let labels = runner_labels sdk (label_owner sdk) in
      let both =
        IsDistinct-copy_into labels stdio.pod_labels
          (runner_labels-IsDistinct sdk (label_owner sdk)) in
      let all = copy_into (common_labels "") (copy_into labels stdio.pod_labels) in
      let mine : lookup key (copy_into labels stdio.pod_labels)
          ≡ or_else (lookup key stdio.pod_labels) (some value) =
        lookup-copy_into key labels stdio.pod_labels distinct ∙ rw own refl in
      let kept : lookup key all ≡ or_else (lookup key stdio.pod_labels) (some value) =
        lookup-copy_into key (common_labels "") (copy_into labels stdio.pod_labels) both
        ∙ rw mine (or_else-some (lookup key stdio.pod_labels) value _) in
      elim (Bool-cases (is_empty k.step_run_name)) [
        | inl b ↦ rw b kept
        | inr b ↦
            rw b (lookup-insert "bubustack.io/stepRun" key k.step_run_name all ∙ rw other kept)
      ]

  -- A runner pod that the adapter creates has, under each of the two keys by which the reaper looks for
  -- the pods of the same owner, the configured pod label if there is one and else the very label that
  -- the reaper looks for, whatever the story and the environment are: where the configured pod labels
  -- are a map, and no key of the SDK is one of these two.
  pub build_runner_pod-owned_by :
      (life : Lifecycle S) (sources : EnvSources) (owner : Option OwnerRef)
      → All
          (λ label.
            lookup label.0
              (build_runner_pod k (runner_spec pods sdk sys stdio) sources owner).labels
            ≡ or_else (lookup label.0 stdio.pod_labels) (some label.1))
          (owned_by life (label_owner sdk))
  unfolding build_runner_pod lookup
  build_runner_pod-owned_by life sources owner = (
    lookup-build_labels "bubustack.io/ownerPod" _ refl
        (lookup-runner_labels sdk _ "bubustack.io/ownerPod" story_run.0 step_run.0 step.0 engram.0),
    (
      lookup-build_labels "app.kubernetes.io/name" _ refl (
          lookup-runner_labels sdk _ "app.kubernetes.io/name" story_run.1 step_run.1 step.1
            engram.1),
      tt,
    ),
  )
