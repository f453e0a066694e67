-- ===== src/Kube/Deploy/Applied.antt =====
-- What `Ensure` of pkg/kube/ensure.go writes to the cluster.
use mcp_adapter_engram.Base.{
  ok, true, String, ◌≡◌, refl, sym, ap, ◌∙◌, inl, inr, false, none, some, List, ◌∷◌, if◌then◌else◌,
  lookup, IsDistinct, lookup-copy_into, lookup-insert, copy_into, str_eq→eq, or_else, Result, err,
  Error, Bool-cases, Result-cases, Option-cases,
}
use text.Mathlib.Text.{◌==◌ as str_eq}
use mcp_adapter_engram.Text.{is_empty}
use mcp_adapter_engram.Kube.Labels.{common_labels}
use mcp_adapter_engram.Kube.Deploy.{
  Api, Deployment, deployment_labels, deployment_of, ensure, ensure_deployment, ensure_service,
  EnsureSpec, Service, service_of,
}

pub data Write (O : Type 0) : Type 0 where
  creates_deployment updates_deployment : Deployment O → Write O
  creates_service updates_service : Service → Write O

-- An API server that keeps what was written, the last first.
abbrev pub recording : {O S : Type 0} → Api O S → Api O (S × List (Write O))
recording api = record {
  get_deployment = λ ns name s. let (r, t) = api.get_deployment ns name s.0 in (r, (t, s.1));
  create_deployment =
      λ d s. let (r, t) = api.create_deployment d s.0 in (r, (t, creates_deployment d ∷ s.1));
  update_deployment =
      λ d s. let (r, t) = api.update_deployment d s.0 in (r, (t, updates_deployment d ∷ s.1));
  get_service = λ ns name s. let (r, t) = api.get_service ns name s.0 in (r, (t, s.1));
  create_service =
      λ d s. let (r, t) = api.create_service d s.0 in (r, (t, creates_service d ∷ s.1));
  update_service =
      λ d s. let (r, t) = api.update_service d s.0 in (r, (t, updates_service d ∷ s.1));
  digest = api.digest;
}

-- A deployment that is created where none could be read, or takes the place of the one read, by its
-- version.
pub data PutsDeployment {O : Type 0} (d : Deployment O) : Result String → Write O → Type 0 where
  new_deployment : (e : Error) → PutsDeployment d (err e) (creates_deployment d)
  next_deployment :
      (version : String)
      → PutsDeployment d (ok version) (updates_deployment (record d { resource_version = version }))

-- The same for a service, which keeps the cluster IP of the one read, if that has one.
pub data PutsService {O : Type 0} (x : Service) : Result (String × String) → Write O → Type 0 where
  new_service : (e : Error) → PutsService x (err e) (creates_service x)
  next_service :
      (version ip : String)
      → is_empty ip ≡ true
      → PutsService x (ok (version, ip)) (updates_service (record x { resource_version = version }))
  next_service_at :
      (version ip : String)
      → is_empty ip ≡ false
      → PutsService x
          (ok (version, ip))
          (updates_service (record x { resource_version = version; cluster_ip = ip }))

module _ {O S : Type 0} (api : Api O S) where
  abbrev PutsOne : (Write O → Type 0) → List (Write O) → S × List (Write O) → Type 0
  PutsOne P before s = (w : Write O) × (s.1 ≡ w ∷ before) × P w

  ensure_deployment-PutsOne :
      (d : Deployment O) (s : S × List (Write O))
      → PutsOne
          (PutsDeployment d (api.get_deployment d.namespace d.name s.0).0)
          s.1
          (ensure_deployment (recording api) (some d) s).1
  unfolding ensure_deployment
  ensure_deployment-PutsOne d s =
      elim (Result-cases (api.get_deployment d.namespace d.name s.0).0) [
        | inl (version, f) ↦ rw f (_, refl, next_deployment version)
        | inr (x, f) ↦ rw f (_, refl, new_deployment x)
      ]

  ensure_service-PutsOne :
      (x : Service) (s : S × List (Write O))
      → PutsOne
          (PutsService x (api.get_service x.namespace x.name s.0).0)
          s.1
          (ensure_service (recording api) (some x) s).1
  unfolding ensure_service
  ensure_service-PutsOne x s = elim (Result-cases (api.get_service x.namespace x.name s.0).0) [
    | inr (e, f) ↦ rw f (_, refl, new_service e)
    | inl ((version, ip), f) ↦ elim (Bool-cases (is_empty ip)) [
      | inl y ↦ rw f (rw y (_, refl, next_service version ip y))
      | inr n ↦ rw f (rw n (_, refl, next_service_at version ip n))
    ]
  ]

  -- The pods of a deployment are those that the service before it selects, at the port they listen on.
  abbrev pub Routes : Deployment O → Service → Type 0
  Routes d x =
      (x.selector ≡ d.template_labels)
      × (d.match_labels ≡ d.template_labels)
      × (x.target_port ≡ d.container_port)

  -- From a state of the API server; the service is read in a later one.
  pub data Applies (d : Deployment O) (x : Service) (s : S) (before : List (Write O))
      : Result (Unit {0}) → List (Write O) → Type 0 where
    stops :
        (e : Error) (w : Write O)
        → PutsDeployment d (api.get_deployment d.namespace d.name s).0 w
        → Applies d x s before (err e) (w ∷ before)
    applies :
        (later : S) (r : Result (Unit {0})) (w w' : Write O)
        → PutsDeployment d (api.get_deployment d.namespace d.name s).0 w
        → PutsService x (api.get_service x.namespace x.name later).0 w'
        → Routes d x
        → Applies d x s before r (w' ∷ w ∷ before)

  -- `Ensure` writes the deployment of the spec first and the service second, or the deployment alone and
  -- fails: each is created where it cannot be read and put in place of the one that is read otherwise,
  -- with its version and, for a service, its cluster IP, if it has one; the service selects the
  -- deployment's pods at their port.
  pub ensure-Applies :
      (spec : EnsureSpec O) (s : S × List (Write O))
      → Applies
          (deployment_of (recording api) spec)
          (service_of spec)
          s.0
          s.1
          (ensure (recording api) spec s).0
          (ensure (recording api) spec s).1.1
  unfolding ensure deployment_of service_of
  ensure-Applies spec s =
      let d = deployment_of (recording api) spec in
      let (w, e, puts) = ensure_deployment-PutsOne d s in
      let mid = (ensure_deployment (recording api) (some d) s).1 in
      elim (Result-cases (ensure_deployment (recording api) (some d) s).0) [
        | inr (x, f) ↦ rw (f, e) (stops x w puts)
        | inl (u, f) ↦
            let (w', e', puts') = ensure_service-PutsOne (service_of spec) mid in
            rw (f, e', e) (applies mid.0 _ w w' puts puts' (refl, refl, refl))
      ]

-- A label of the deployment: that of the spec goes before the common ones, and an instance is always
-- named, by the engram if the spec does not.
pub lookup-deployment_labels :
    {O : Type 0} (spec : EnsureSpec O) (key : String)
    → IsDistinct spec.labels
    → lookup key (deployment_labels spec)
      ≡ or_else (lookup key spec.labels) (
          if str_eq "bubustack.io/engram-instance" key
          then some spec.engram_name
          else lookup key (common_labels spec.engram_name))
unfolding deployment_labels common_labels lookup
lookup-deployment_labels spec key d =
    let instance' : String = "bubustack.io/engram-instance" in
    let m = copy_into (common_labels spec.engram_name) spec.labels in
    let own = lookup-copy_into key (common_labels spec.engram_name) spec.labels d in
    let named = lookup-copy_into instance' (common_labels spec.engram_name) spec.labels d in
    elim (Bool-cases (str_eq instance' key)) [
      | inr n ↦ elim (Option-cases (lookup instance' spec.labels)) [
        | inr (v, f) ↦
            let present : lookup instance' m ≡ some v = named ∙ rw f refl in rw (present, n) own
        | inl f ↦
            let absent : lookup instance' m ≡ none = named ∙ rw f refl in
            rw (absent, n) (lookup-insert instance' key spec.engram_name m ∙ rw n own)
      ]
      | inl y ↦ elim (Option-cases (lookup instance' spec.labels)) [
        | inr (v, f) ↦
            let present : lookup instance' m ≡ some v = named ∙ rw f refl in
            let here : lookup key spec.labels ≡ some v =
              ap (λ k. lookup k spec.labels) (sym (str_eq→eq instance' key y)) ∙ f in
            rw (present, y) (own ∙ rw here refl)
        | inl f ↦
            let absent : lookup instance' m ≡ none = named ∙ rw f refl in
            let here : lookup key spec.labels ≡ none =
              ap (λ k. lookup k spec.labels) (sym (str_eq→eq instance' key y)) ∙ f in
            rw (absent, y) (lookup-insert instance' key spec.engram_name m ∙ rw (y, here) refl)
      ]
    ]
