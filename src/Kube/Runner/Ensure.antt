-- ===== src/Kube/Runner/Ensure.antt =====
-- What `EnsureRunnerPod` of pkg/kube/runner_pod.go creates.
use mcp_adapter_engram.Base.{
  String, ◌<>◌, ◌≡◌, refl, ◌⊎◌, inl, inr, Bool, true, false, ◌&&◌, ◌||◌, not, Option, none, some,
  arith, Bool-cases, ok, err, Error, message, error_text, Result-cases,
}
use Prim.Native.String.{◌∷◌}
use mathlib.Core.List.{◌∷◌}
use mcp_adapter_engram.Base.Exec.{Exec, ◌>>=◌}
use mcp_adapter_engram.Text.{is_empty}
use mcp_adapter_engram.Kube.Runner.{
  build_env_sources, Cluster, create_runner_pod, create_unless, ensure_runner_pod, get_owner_ref,
  OwnerRef, pod_exists, RunnerPodSpec,
}
use mcp_adapter_engram.Kube.Runner.Answers.{
  secret, recording, wants_secret, sources, secret_for, secrets_of, connected, owner_answer,
  owner_asked, pod_answer, pod_asked, secret_answer, secret_asked, creation_answer, IsOwner,
  unowned, owned, Accepts, Refuses, unnamed, without_image, unconnected, owner_unknown, Creates,
  fails, exists, fails_with_secret, fails_with_pod, created,
}

module _ {X : Type 0} (k : Cluster X) (spec : RunnerPodSpec X) where
  module _ (s : (recording k).State) (owner : Option OwnerRef) where
    -- The sources k spec of the environment where the secret is not wanted or has been made.
    build_env_sources-sources :
        (wants_secret k spec ≡ false) ⊎ (secret_answer k spec s.0 owner ≡ ok tt)
        → build_env_sources (recording k) spec owner (pod_asked k spec s.0, s.1)
          ≡ (ok (sources k spec), (secret_asked k spec s.0 owner, secrets_of k spec owner s.1))
    unfolding build_env_sources
    build_env_sources-sources made =
        elim (Bool-cases
          (not (is_empty spec.existing_env_secret_name) && not spec.use_ephemeral_secret)) [
            | inl b ↦ elim (Bool-cases (wants_secret k spec)) [
              | inl y ↦ absurd (ground arith)
              | inr n ↦ rw (b, n) refl
            ]
            | inr b ↦ elim (Bool-cases (wants_secret k spec)) [
              | inl y ↦ elim made [ inl n ↦ absurd (ground arith) | inr f ↦ rw (b, y, f) refl ]
              | inr n ↦ rw (b, n) refl
            ]
          ]

    build_env_sources-refused :
        (e : Error)
        → wants_secret k spec ≡ true
        → secret_answer k spec s.0 owner ≡ err e
        → build_env_sources (recording k) spec owner (pod_asked k spec s.0, s.1) ≡ (
          err (message ("create ephemeral secret: " <> error_text e)),
          (secret_asked k spec s.0 owner, secret (secret_for k spec owner) ∷ s.1),
        )
    unfolding build_env_sources
    build_env_sources-refused e wanted f =
        let own : (not (is_empty spec.existing_env_secret_name) && not spec.use_ephemeral_secret)
            ≡ false =
          ground arith in
        rw (own, wanted, f) refl

    module _ (missing : Error) (accepts : Accepts k spec s.0) (known : IsOwner k spec s.0 owner)
        (absent : pod_answer k spec s.0 ≡ err missing) where
      make_pod-Creates :
          (wants_secret k spec ≡ false) ⊎ (secret_answer k spec s.0 owner ≡ ok tt)
          → Creates k spec s.0 s.1
              (create_runner_pod (recording k) spec owner (pod_asked k spec s.0, s.1)).0
              (create_runner_pod (recording k) spec owner (pod_asked k spec s.0, s.1)).1.1
      unfolding create_runner_pod
      make_pod-Creates made = elim (Result-cases (creation_answer k spec s.0 owner)) [
        | inl (u, g) ↦
            rw (build_env_sources-sources made, g)
              (created owner missing accepts known absent made g)
        | inr (x, g) ↦
            rw (build_env_sources-sources made, g)
              (fails_with_pod owner missing x accepts known absent made g)
      ]

      create_runner_pod-Creates :
          Creates k spec s.0 s.1
            (create_runner_pod (recording k) spec owner (pod_asked k spec s.0, s.1)).0
            (create_runner_pod (recording k) spec owner (pod_asked k spec s.0, s.1)).1.1
      unfolding create_runner_pod
      create_runner_pod-Creates = elim (Bool-cases (wants_secret k spec)) [
        | inr n ↦ make_pod-Creates (inl n)
        | inl y ↦ elim (Result-cases (secret_answer k spec s.0 owner)) [
          | inl (u, f) ↦ make_pod-Creates (inr f)
          | inr (x, f) ↦
              rw (build_env_sources-refused x y f)
                (fails_with_secret owner missing x accepts known absent y f)
        ]
      ]

  -- What follows once the owner is known.
  abbrev with_owner : Option OwnerRef → Exec (recording k).State (Bool × String)
  with_owner owner = do
    found ← pod_exists (recording k) spec
    create_unless (recording k) spec owner found

  with_owner-Creates :
      (s : (recording k).State) (owner : Option OwnerRef)
      → Accepts k spec s.0
      → IsOwner k spec s.0 owner
      → Creates k spec s.0 s.1
          (with_owner owner (owner_asked k spec s.0, s.1)).0
          (with_owner owner (owner_asked k spec s.0, s.1)).1.1
  unfolding pod_exists create_unless
  with_owner-Creates s owner accepts known = elim (Result-cases (pod_answer k spec s.0)) [
    | inl (ref, f) ↦ rw f (exists owner ref accepts known f)
    | inr (x, f) ↦ rw f (create_runner_pod-Creates s owner x accepts known f)
  ]

  get_owner_ref-IsOwner :
      (s : (recording k).State)
      → Accepts k spec s.0
      → ((owner : Option OwnerRef) × IsOwner k spec s.0 owner
          × (get_owner_ref (recording k) spec (connected k spec s.0, s.1)
              ≡ (ok owner, (owner_asked k spec s.0, s.1))))
        ⊎ ((e : Error) × Refuses k spec s.0 e
            × (get_owner_ref (recording k) spec (connected k spec s.0, s.1)
                ≡ (err e, (owner_asked k spec s.0, s.1))))
  unfolding get_owner_ref
  get_owner_ref-IsOwner s accepts = elim (Bool-cases (is_empty spec.owner_pod_name)) [
    | inl b ↦ inl (none, unowned b, rw b refl)
    | inr b ↦ elim (Result-cases (owner_answer k spec s.0)) [
      | inl (ref, f) ↦ inl (some ref, owned ref b f, rw (b, f) refl)
      | inr (x, f) ↦ inr (x, owner_unknown x accepts b f, rw (b, f) refl)
    ]
  ]

  -- `EnsureRunnerPod` ends in one of five ways, and each only where the answers of the cluster say so.
  -- It fails with nothing created where the namespace, the name or the image is missing, or there is no
  -- client, or the owner cannot be read. Otherwise it looks for the pod: where that can be read, it
  -- creates nothing and says so; where it cannot, it asks first for the ephemeral secret, if one is
  -- wanted, and then for the pod, with the owner that was read. It returns the secret's name once both are
  -- made, and the error of the one that is refused under its text; after a refused secret the pod is
  -- not asked for.
  pub ensure_runner_pod-Creates :
      (s : (recording k).State)
      → Creates k spec s.0 s.1
          (ensure_runner_pod (recording k) spec s).0
          (ensure_runner_pod (recording k) spec s).1.1
  unfolding ensure_runner_pod
  ensure_runner_pod-Creates s = elim (Bool-cases (is_empty spec.namespace || is_empty spec.name)) [
    | inl b ↦ rw b (fails _ (unnamed b))
    | inr b ↦ elim (Bool-cases (is_empty spec.image)) [
      | inl b' ↦ rw (b, b') (fails _ (without_image b b'))
      | inr b' ↦ elim (Result-cases (k.new_client s.0).0) [
        | inr (x, f) ↦ rw (b, b', f) (fails x (unconnected x b b' f))
        | inl (u, f) ↦ elim (get_owner_ref-IsOwner s (b, b', f)) [
          | inl (owner, known, g) ↦ rw (b, b', f, g) (with_owner-Creates s owner (b, b', f) known)
          | inr (x, refused, g) ↦ rw (b, b', f, g) (fails x refused)
        ]
      ]
    ]
  ]
