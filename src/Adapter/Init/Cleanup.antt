-- ===== src/Adapter/Init/Cleanup.antt =====
-- What the clean-up that `Init` of pkg/adapter/handler.go keeps deletes.
use mathlib.Core.Path.{subst}
use Prim.Native.String.{[], ◌∷◌}
use text.Mathlib.TextLemmas.{cons-append}
use mcp_adapter_engram.Base.{
  String, ◌<>◌, ◌≡◌, refl, ap, ◌∙◌, inl, inr, Bool, false, Option, none, some, List, [], ◌∷◌, ◌++◌,
  ℤ, pos, Result, ok, arith, Bool-cases, Result-cases, All,
}
use mcp_adapter_engram.Text.{is_empty, lower_eq}
use mcp_adapter_engram.Heap.{Heap}
use mcp_adapter_engram.Config.{Config, StdioConfig}
use mcp_adapter_engram.Mcp.Client.{Client}
use mcp_adapter_engram.Kube.Runner.{
  build_runner_pod, Cluster, ensure_runner_pod, ephemeral_secret, existing_sources, OwnerRef,
  RunnerPodSpec,
}
use mcp_adapter_engram.Kube.Runner.Answers.{
  created, Creates, Creation, exists, fails, fails_with_pod, fails_with_secret, pod, pod_for,
  recording, secret, secrets_of, sources, wants_secret,
}
use mcp_adapter_engram.Kube.Runner.Ensure.{ensure_runner_pod-Creates}
use mcp_adapter_engram.Kube.Lifecycle.{
  delete_runner_pod, Lifecycle, wait_for_pod_running, reap_old_owned_runner_pods,
}
use mcp_adapter_engram.Kube.Lifecycle.Recording as Lives
use mcp_adapter_engram.Kube.Lifecycle.Recording.{Act, deletes_pod, deletes_secret}
use mcp_adapter_engram.Kube.Lifecycle.Deletion.{
  Deletes, fails as none_asked, stops, only_pod, with_secret, delete_runner_pod-Deletes,
}
use mcp_adapter_engram.Adapter.Secrets.{System}
use mcp_adapter_engram.Adapter.Naming.{label_owner, resolve_namespace, Sdk}
use mcp_adapter_engram.Adapter.Launch.{
  ensure_and_wait, Runners, runner_pod_name, runner_spec, start_runner,
}
use mcp_adapter_engram.Adapter.Init.{delete_runner, Opening}

-- What is created, and by what name.
abbrev pub IsCalled : {X : Type 0} → String → String → String → Creation X → Type 0
IsCalled ns name secret_name (pod p) = (p.namespace ≡ ns) × (p.name ≡ name)
IsCalled ns name secret_name (secret x) =
    (x.namespace ≡ ns) × (x.name ≡ secret_name) × (is_empty secret_name ≡ false)

-- The request to delete it.
abbrev pub deletion : {X : Type 0} → Creation X → Act
deletion (pod p) = deletes_pod p.namespace p.name (some "Foreground")
deletion (secret x) = deletes_secret x.namespace x.name

is_empty_suffixed : (name : String) → is_empty name ≡ false → is_empty (name <> "-env") ≡ false
is_empty_suffixed [] e = absurd (ground arith)
is_empty_suffixed (c ∷ s) e = rw (cons-append c s "-env")

module _ {X : Type 0} (k : Cluster X) (spec : RunnerPodSpec X) where
  secrets_of-append :
      (owner : Option OwnerRef) (before : List (Creation X))
      → secrets_of k spec owner before ≡ secrets_of k spec owner [] ++ before
  secrets_of-append owner before = elim (Bool-cases (wants_secret k spec)) [
    | inl y ↦ rw y refl
    | inr n ↦ rw n refl
  ]

  secrets_of-IsCalled :
      (owner : Option OwnerRef)
      → is_empty spec.name ≡ false
      → All
          (IsCalled spec.namespace spec.name (sources k spec).secret_name)
          (secrets_of k spec owner [])
  unfolding ephemeral_secret
  secrets_of-IsCalled owner named = elim (Bool-cases (wants_secret k spec)) [
    | inl y ↦ rw y ((refl, refl, is_empty_suffixed spec.name named), tt)
    | inr n ↦ rw n tt
  ]

  -- What was created where a name comes back.
  Creates-IsCalled :
      (s : k.State) (before : List (Creation X)) (r : Result (Bool × String))
      (after : List (Creation X))
      → Creates k spec s before r after
      → (b : Bool) (name : String) → r ≡ ok (b, name)
      → (new : List (Creation X)) × (after ≡ new ++ before)
        × All (IsCalled spec.namespace spec.name name) new
  unfolding build_runner_pod existing_sources
  Creates-IsCalled s before r after (fails e why) b name q = absurd (ground arith)
  Creates-IsCalled s before r after (exists owner ref a o p) b name q = ([], refl, tt)
  Creates-IsCalled s before r after (fails_with_secret owner m e a o p w f) b name q =
      absurd (ground arith)
  Creates-IsCalled s before r after (fails_with_pod owner m e a o p w f) b name q =
      absurd (ground arith)
  Creates-IsCalled s before r after (created owner m a o p w f) b name q = (
    pod (pod_for k spec owner) ∷ secrets_of k spec owner [],
    ap (λ l. pod (pod_for k spec owner) ∷ l) (secrets_of-append owner before),
    (
      (refl, refl),
      subst (λ n. All (IsCalled spec.namespace spec.name n) (secrets_of k spec owner []))
          (ground arith) (secrets_of-IsCalled owner (ground arith)),
    ),
  )

All-map : {A : Type 0} {P Q : A → Type 0} → ((a : A) → P a → Q a) → (l : List A) → All P l → All Q l
All-map f [] p = tt
All-map f (a ∷ l) (p, ps) = (f a p, All-map f l ps)

-- A deletion was asked for.
abbrev pub Asks : Act → List Act → Type 0
Asks act log = (front : List Act) × (back : List Act) × (log ≡ front ++ act ∷ back)

-- A deletion that succeeds covers what was created by its names.
Deletes-Asks :
    (ns name secret_name : String) (log : List Act) (r : Result (Unit {0})) (after : List Act)
    → Deletes ns name secret_name log r after
    → r ≡ ok tt
    → {X : Type 0} (c : Creation X) → IsCalled ns name secret_name c
    → Asks (deletion c) after
Deletes-Asks ns name secret_name log r after (none_asked e) q c called = absurd (ground arith)
Deletes-Asks ns name secret_name log r after (stops e) q c called = absurd (ground arith)
Deletes-Asks ns name secret_name log r after (only_pod y) q (pod p) called =
    ([], log, rw (called.0, called.1) refl)
Deletes-Asks ns name secret_name log r after (only_pod y) q (secret x) called =
    absurd (ground arith)
Deletes-Asks ns name secret_name log r after (with_secret r' n) q (pod p) called =
    (deletes_secret ns secret_name ∷ [], log, rw (called.0, called.1) refl)
Deletes-Asks ns name secret_name log r after (with_secret r' n) q (secret x) called =
    ([], deletes_pod ns name (some "Foreground") ∷ log, rw (called.0, called.1) refl)

module _ {X : Type 0} (k : Cluster X) (life : Lifecycle (recording k).State) where
  -- What the start-up asks for, where the cluster keeps what was created and what was to be deleted.
  abbrev pub recorded : Runners X ((recording k).State × List Act)
  recorded = record {
    ensure = λ spec s. let (r, t) = ensure_runner_pod (recording k) spec s.0 in (r, (t, s.1));
    wait = wait_for_pod_running (Lives.recording life);
    delete = delete_runner_pod (Lives.recording life);
    reap = reap_old_owned_runner_pods (Lives.recording life);
  }

  module _ (sdk : Sdk) (sys : System) (stdio : StdioConfig X) where
    -- What was created by the names that a start-up returns.
    ensure_and_wait-IsCalled :
        (s : (recording k).State × List Act) (name : String)
        → (ensure_and_wait recorded sdk sys stdio s).0 ≡ ok name
        → (new : List (Creation X)) × ((ensure_runner_pod
              (recording k)
              (runner_spec recorded sdk sys stdio)
              s.0).1.1
            ≡ new ++ s.0.1)
          × All (IsCalled (resolve_namespace sdk) (runner_pod_name recorded sdk sys stdio) name) new
    unfolding ensure_and_wait runner_spec
    ensure_and_wait-IsCalled s name e =
        let spec = runner_spec recorded sdk sys stdio in
        elim (Result-cases (ensure_runner_pod (recording k) spec s.0).0) [
          | inr (x, f) ↦ absurd (ground arith)
          | inl ((b, name'), f) ↦
              let made = ensure_runner_pod (recording k) spec s.0 in
              elim (Result-cases
                (wait_for_pod_running (Lives.recording life) (resolve_namespace sdk)
                  (runner_pod_name recorded sdk sys stdio) (made.1, s.1)).0) [
                    | inr (x, g) ↦ absurd (ground arith)
                    | inl (u, g) ↦
                        let same : name' ≡ name = ground arith in
                        Creates-IsCalled k spec s.0.0 s.0.1 _ _
                          (ensure_runner_pod-Creates k spec s.0) b name
                          (f ∙ ap (λ n. ok (b, n)) same)
                  ]
        ]

    -- What a clean-up that succeeds has asked for.
    delete_runner-Asks :
        (c : Client) (opening : Opening c ((recording k).State × List Act))
        (sleep : ℤ → c.State → c.State) (cfg : Config) (h : Heap) (name : String) (l : c.State)
        → lower_eq stdio.deletion_policy "keep" ≡ false
        → (delete_runner recorded sdk sys stdio c opening sleep cfg h name l).0 ≡ none
        → (x : Creation X)
        → IsCalled (resolve_namespace sdk) (runner_pod_name recorded sdk sys stdio) name x
        → Asks
            (deletion x)
            (opening.outside
              (delete_runner recorded sdk sys stdio c opening sleep cfg h name l).1).1
    unfolding delete_runner
    delete_runner-Asks c opening sleep cfg h name l policy done x called =
        let ns = resolve_namespace sdk in
        let runner = runner_pod_name recorded sdk sys stdio in
        let asked = delete_runner_pod-Deletes life ns runner name (opening.outside l) in
        elim (Result-cases
          (delete_runner_pod (Lives.recording life) ns runner name (opening.outside l)).0) [
            | inr (err', f) ↦ absurd (ground arith)
            | inl (u, f) ↦
                rw (policy, f)
                  (rw (opening.outside-put_back l _)
                    (Deletes-Asks ns runner name _ _ _ asked f x called))
          ]

    -- Where the runner pod was started, and the policy is not to keep it, a clean-up by the secret's
    -- name that the start returned has asked, if it succeeds, for the deletion of all that was created
    -- by that start: of the pod, and of the ephemeral secret if there was one, by their own names and
    -- namespace.
    pub cleanup_deletes_created :
        (c : Client) (opening : Opening c ((recording k).State × List Act))
        (sleep : ℤ → c.State → c.State) (cfg : Config) (h : Heap)
        (s : (recording k).State × List Act) (name : String) (l : c.State)
        → (start_runner recorded sdk sys stdio s).0 ≡ ok name
        → lower_eq stdio.deletion_policy "keep" ≡ false
        → (delete_runner recorded sdk sys stdio c opening sleep cfg h name l).0 ≡ none
        → (reaped : (recording k).State × List Act) × (new : List (Creation X))
          × ((ensure_runner_pod (recording k) (runner_spec recorded sdk sys stdio) reaped.0).1.1
              ≡ new ++ reaped.0.1)
          × (ensure_and_wait recorded sdk sys stdio reaped ≡ start_runner recorded sdk sys stdio s)
          × All
              (λ x.
                Asks
                  (deletion x)
                  (opening.outside
                    (delete_runner recorded sdk sys stdio c opening sleep cfg h name l).1).1)
              new
    unfolding start_runner
    cleanup_deletes_created c opening sleep cfg h s name l e policy done =
        let reaped =
          (recorded.reap (resolve_namespace sdk) (label_owner sdk) (pos 7_200_000_000_000) s).1 in
        let (new, grown, called) = ensure_and_wait-IsCalled reaped name e in
        (
          reaped,
          new,
          grown,
          refl,
          All-map (λ x p. delete_runner-Asks c opening sleep cfg h name l policy done x p) new
              called,
        )
