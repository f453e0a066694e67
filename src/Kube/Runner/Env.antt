-- ===== src/Kube/Runner/Env.antt =====
-- Where pkg/kube/runner_pod.go puts the environment of the runner, which holds credentials.
use mcp_adapter_engram.Base.{
  String, ◌≡◌, ◌⊎◌, inl, inr, true, false, ◌&&◌, not, Option, [], ◌∷◌, Map, All, arith, Bool-cases,
  Result, ok, err, Result-cases,
}
use mcp_adapter_engram.Text.{is_empty}
use mcp_adapter_engram.Kube.Runner.{
  build_env_sources, Cluster, ephemeral_secret, EnvSources, EnvVar, existing_sources,
  from_secret_key, is_empty_map, OwnerRef, plain, plain_vars, RunnerPodSpec, key_vars,
}

-- No value stands in the pod itself.
abbrev pub IsReference : EnvVar → Type 0
IsReference (plain name value) = ⊥
IsReference (from_secret_key name secret key) = Unit

key_vars-IsReference :
    (secret : String) (keys : Map String) → All IsReference (key_vars secret keys)
key_vars-IsReference secret [] = tt
key_vars-IsReference secret ((env_name, key_name) ∷ keys) = (tt, key_vars-IsReference secret keys)

plain_vars-IsReference :
    (env : Map String) → is_empty_map env ≡ true → All IsReference (plain_vars env)
plain_vars-IsReference [] e = tt
plain_vars-IsReference (kv ∷ env) e = absurd (ground arith)

abbrev HidesValues : Result EnvSources → Type 0
HidesValues (ok sources) = All IsReference sources.env
HidesValues (err e) = Unit

module _ {X : Type 0} (k : Cluster X) (spec : RunnerPodSpec X) where
  ephemeral-HidesValues :
      (owner : Option OwnerRef) (s : k.State)
      → spec.use_ephemeral_secret ≡ true
      → HidesValues (build_env_sources k spec owner s).0
  unfolding build_env_sources
  ephemeral-HidesValues owner s h =
      let no_existing : (not (is_empty spec.existing_env_secret_name)
            && not spec.use_ephemeral_secret)
          ≡ false =
        ground (arith, Bool-cases (is_empty spec.existing_env_secret_name)) in
      elim (Bool-cases (is_empty_map spec.env)) [
        | inl b ↦
            let none_needed : (spec.use_ephemeral_secret && not (is_empty_map spec.env)) ≡ false =
              ground arith in
            rw (no_existing, none_needed) (plain_vars-IsReference spec.env b)
        | inr b ↦
            let needed : (spec.use_ephemeral_secret && not (is_empty_map spec.env)) ≡ true =
              ground arith in
            elim (Result-cases (k.create_secret (ephemeral_secret k spec owner) s).0) [
              | inl (u, f) ↦ rw (no_existing, needed, f) tt
              | inr (x, f) ↦ rw (no_existing, needed, f) tt
            ]
      ]

  existing-HidesValues :
      (owner : Option OwnerRef) (s : k.State)
      → spec.use_ephemeral_secret ≡ false
      → is_empty spec.existing_env_secret_name ≡ false
      → HidesValues (build_env_sources k spec owner s).0
  unfolding build_env_sources existing_sources
  existing-HidesValues owner s h e =
      let uses_existing : (not (is_empty spec.existing_env_secret_name)
            && not spec.use_ephemeral_secret)
          ≡ true =
        ground arith in
      rw uses_existing (key_vars-IsReference spec.existing_env_secret_name spec.existing_env_keys)

  hides_lem :
      (owner : Option OwnerRef) (s : k.State)
      → (spec.use_ephemeral_secret ≡ true) ⊎ (is_empty spec.existing_env_secret_name ≡ false)
      → HidesValues (build_env_sources k spec owner s).0
  hides_lem owner s h = elim (Bool-cases spec.use_ephemeral_secret) [
    | inl b ↦ ephemeral-HidesValues owner s b
    | inr b ↦ elim h [ inl b' ↦ absurd (ground arith) | inr e ↦ existing-HidesValues owner s b e ]
  ]

  -- If an ephemeral secret is asked for or an existing one is named, no variable of the runner has
  -- its value in the pod: each refers to a key of a secret.
  pub build_env_sources-IsReference :
      (owner : Option OwnerRef) (s : k.State) {sources : EnvSources}
      → (spec.use_ephemeral_secret ≡ true) ⊎ (is_empty spec.existing_env_secret_name ≡ false)
      → (build_env_sources k spec owner s).0 ≡ ok sources
      → All IsReference sources.env
  build_env_sources-IsReference owner s {sources} h e = rw e at (hides_lem owner s h)
