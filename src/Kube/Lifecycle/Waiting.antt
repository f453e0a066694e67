-- ===== src/Kube/Lifecycle/Waiting.antt =====
-- `WaitForPodRunning` of pkg/kube/runner_pod.go: that it ends, and what it waits for.
use mcp_adapter_engram.Base.{
  ℕ, zero, suc, ◌+◌, ◌*◌, ◌≤◌, ◌<◌, ltb, String, ◌≡◌, refl, ◌⊎◌, inl, inr, true, none, some, Result,
  arith, Bool-cases, Option-cases, lt→ltb,
}
use mcp_adapter_engram.Kube.Lifecycle.{
  again, completed, Lifecycle, running, Turn, turn, wait_loop, wait_or_cancel, wait_until,
}

pub Turn-cases :
    (x : Turn) → (x ≡ running) ⊎ ((phase : String) × (x ≡ completed phase)) ⊎ (x ≡ again)
Turn-cases running = inl refl
Turn-cases (completed phase) = inr (inl (phase, refl))
Turn-cases again = inr (inr refl)

module _ {S : Type 0} (k : Lifecycle S)
    (reading_takes_time : (namespace name : String) (s : S)
      → k.clock s ≤ k.clock (k.get_status namespace name s).1)
    (pausing_takes_time : (d : ℕ) (s : S)
      → (k.pause d s).0 ≡ none
      → k.clock s + d ≤ k.clock (k.pause d s).1)
    (namespace name : String) where
  wait_loop_ends :
      (fuel deadline : ℕ) (s : S)
      → deadline < k.clock s + 500_000_000 * fuel
      → (r : Result (Unit {0}) × S) × (wait_loop k (suc fuel) deadline namespace name s ≡ some r)
  unfolding wait_loop wait_or_cancel
  wait_loop_ends zero deadline s h =
      let late : ltb deadline (k.clock s) ≡ true = lt→ltb deadline (k.clock s) (omega (arith, h)) in
      rw (late, wait_loop) (_, refl)
  wait_loop_ends (suc fuel) deadline s h = elim (Bool-cases (ltb deadline (k.clock s))) [
    | inl late ↦ rw (late, wait_loop) (_, refl)
    | inr b ↦ elim (Turn-cases (turn (k.get_status namespace name s).0)) [
      | inl f ↦ rw (b, f, wait_loop) (_, refl)
      | inr (inl (phase, f)) ↦ rw (b, f, wait_loop) (_, refl)
      | inr (inr f) ↦
          elim (Option-cases (k.pause 500_000_000 (k.get_status namespace name s).1).0) [
            | inr (e, p) ↦ rw (b, f, wait_loop) (rw p (_, refl))
            | inl p ↦
                let first = reading_takes_time namespace name s in
                let second = pausing_takes_time 500_000_000 (k.get_status namespace name s).1 p in
                let rest =
                  wait_loop_ends fuel deadline
                    (k.pause 500_000_000 (k.get_status namespace name s).1).1 (ground arith) in
                rw (b, f, wait_loop) (rw p rest)
          ]
    ]
  ]

  -- The wait for a pod ends, whatever the API server answers: where the clock does not go back while a
  -- pod is read, and a pause that is not cut short takes its time, 602 rounds are enough for the five
  -- minutes of its deadline, and the outcome is that of the loop.
  pub wait_until_ends :
      (s : S)
      → (r : Result (Unit {0}) × S) × (wait_loop k 602
            (k.clock s + 300_000_000_000)
            namespace
            name
            s
          ≡ some r)
        × (wait_until k (k.clock s + 300_000_000_000) namespace name s ≡ r)
  unfolding wait_until
  wait_until_ends s =
      let (r, e) = wait_loop_ends 601 (k.clock s + 300_000_000_000) s (omega arith) in
      (r, e, rw e refl)
