-- ===== src/Kube/Lifecycle/Deletion.antt =====
-- What `DeleteRunnerPod` and `ReapOldOwnedRunnerPods` of pkg/kube/runner_pod.go delete.
use mcp_adapter_engram.Base.{
  ℕ, String, ◌≡◌, ◌⊎◌, inl, inr, true, false, none, some, List, [], ◌∷◌, ℤ, pos, negsuc, suc, ◌+◌,
  ◌<◌, is_ok, Result, ok, err, Error, Bool-cases, Result-cases,
}
use mcp_adapter_engram.Text.{is_empty}
use mcp_adapter_engram.Kube.Lifecycle.{
  delete_runner_pod, delete_secret_of, Lifecycle, ListedPod, owned_by,
}
use mcp_adapter_engram.Kube.Lifecycle.Recording.{Act, deletes_pod, deletes_secret, recording}

-- The outcomes of a deletion, with what was asked for, the last first.
pub data Deletes (namespace name secret : String) (log : List Act)
    : Result (Unit {0}) → List Act → Type 0 where
  fails : (e : Error) → Deletes namespace name secret log (err e) log
  stops :
      (e : Error)
      → Deletes namespace name secret log
          (err e)
          (deletes_pod namespace name (some "Foreground") ∷ log)
  only_pod :
      is_empty secret ≡ true
      → Deletes namespace name secret log
          (ok tt)
          (deletes_pod namespace name (some "Foreground") ∷ log)
  with_secret :
      (r : Result (Unit {0}))
      → is_empty secret ≡ false
      → Deletes namespace name secret log r
          (deletes_secret namespace secret ∷ deletes_pod namespace name (some "Foreground") ∷ log)

-- A pod was created before the cutoff.
abbrev pub IsOld : ℕ → ℤ → ℕ → Type 0
IsOld now (pos d) created = created + d < now
IsOld now (negsuc d) created = created < now + suc d

-- The deletions among the pods of a list: of each that is old, and of no other.
pub data Reaps (now : ℕ) (older_than : ℤ) : List ListedPod → List Act → List Act → Type 0 where
  done : {log : List Act} → Reaps now older_than [] log log
  deletes :
      {p : ListedPod} {pods : List ListedPod} {before after : List Act}
      → IsOld now older_than p.created
      → Reaps now older_than pods (deletes_pod p.namespace p.name none ∷ before) after
      → Reaps now older_than (p ∷ pods) before after
  keeps :
      {p : ListedPod} {pods : List ListedPod} {before after : List Act}
      → (IsOld now older_than p.created → ⊥)
      → Reaps now older_than pods before after
      → Reaps now older_than (p ∷ pods) before after

module _ {S : Type 0} (k : Lifecycle S) where
  abbrev pub ReapsOld :
      String → String → ℤ → S × List Act → Result (Unit {0}) × (S × List Act) → Type 0
  ReapsOld namespace owner older_than s r =
      ((r.1.1 ≡ s.1) × (is_ok r.0 ≡ false))
      ⊎ ((pods : List ListedPod) × (s1 : S) × ((k.list_pods namespace (owned_by k owner) s1).0
            ≡ ok pods)
          × (r.0 ≡ ok tt)
          × Reaps (k.clock (k.list_pods namespace (owned_by k owner) s1).1) older_than pods s.1
              r.1.1)

  delete_secret_of-Deletes :
      (namespace name secret : String) (log : List Act) (s : S)
      → let r =
          delete_secret_of
            (recording k)
            namespace
            secret
            (s, deletes_pod namespace name (some "Foreground") ∷ log) in
        Deletes namespace name secret log r.0 r.1.1
  unfolding delete_secret_of
  delete_secret_of-Deletes namespace name secret log s = elim (Bool-cases (is_empty secret)) [
    | inl b ↦ rw b (only_pod b)
    | inr b ↦ elim (Result-cases (k.delete_secret namespace secret s).0) [
      | inl (u, f) ↦ rw (b, f) (with_secret _ b)
      | inr (x, f) ↦ rw (b, f) (with_secret _ b)
    ]
  ]

  -- A deletion asks for the pod, in the foreground, and then for the secret, if there is a name of one;
  -- where it asks for nothing, or for the pod alone though there is a secret, it fails.
  pub delete_runner_pod-Deletes :
      (namespace name secret : String) (s : S × List Act)
      → Deletes namespace name secret s.1
          (delete_runner_pod (recording k) namespace name secret s).0
          (delete_runner_pod (recording k) namespace name secret s).1.1
  unfolding delete_runner_pod
  delete_runner_pod-Deletes namespace name secret s = elim (Result-cases (k.new_client s.0).0) [
    | inr (x, f) ↦ rw f (fails x)
    | inl (u, f) ↦
        elim (Result-cases
          (k.delete_pod namespace name (some "Foreground") (k.new_client s.0).1).0) [
            | inr (x, g) ↦ rw (f, g) (stops x)
            | inl (u', g) ↦ rw (f, g) (delete_secret_of-Deletes namespace name secret s.1 _)
          ]
  ]
