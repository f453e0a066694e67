-- ===== src/Adapter/Retry/Outcome.antt =====
-- Which of its attempts `callToolWithRetry` of adapter/handler.go returns.
use mcp_adapter_engram.Base.{
  ℕ, zero, suc, ◌≤◌, ◌<◌, ◌≡◌, refl, sym, ap, ◌∙◌, ◌⊎◌, inl, inr, true, arith, Bool-cases, Result,
  ok, err, Error, Result-cases, pos_part, leb_ℤ, ℤ, pos, negsuc,
}
use mcp_adapter_engram.Base.Exec.{Exec, pure, ◌>>=◌, ◌>>◌}
use mcp_adapter_engram.Heap.{Value}
use mcp_adapter_engram.Config.{McpInitConfig}
use mcp_adapter_engram.Mcp.Client.{Client, World}
use mcp_adapter_engram.Adapter.Inputs.{Inputs}
use mcp_adapter_engram.Adapter.Retry.{call_once, call_tool_with_retry, retry_loop, wait}
use mcp_adapter_engram.Adapter.Transient.{is_mcp_transient_error}

-- A result that asks for another try.
abbrev pub IsUnsettled : {S : Type 0} → Result Value × World S → Type 0
IsUnsettled (err e, w) = ⊥
IsUnsettled (ok v, w) = is_mcp_transient_error w.heap v ≡ true

not_positive : (z : ℤ) → leb_ℤ z (pos 0) ≡ true → pos_part z ≡ 0
not_positive (pos n) h = ground arith
not_positive (negsuc n) h = refl

module _ (c : Client) (cfg : McpInitConfig) (input : Inputs) where
  -- After a first result, n more tries with a wait before each, whatever comes back; only an error
  -- ends them.
  unfoldable pub tries : ℕ → Value → Exec (World c.State) Value
  tries zero v = pure v
  tries (suc n) v = do wait c cfg input; next ← call_once c cfg input; tries n next

  -- `r` is the outcome of the first n tries for the least n at which the outcome is settled, or for
  -- n = most if there is none.
  pub record IsFirstSettled (most : ℕ) (outcome : ℕ → Result Value × World c.State)
      (r : Result Value × World c.State) : Type 0 where
    pub n : ℕ
    pub within : n ≤ most
    pub same : r ≡ outcome n
    pub earlier : (j : ℕ) → j < n → IsUnsettled (outcome j)
    pub settled : (n ≡ most) ⊎ ¬ IsUnsettled (outcome n)

  -- A try that ends in an error is the last.
  ends :
      (left : ℕ) (v : Value) (w w' : World c.State) (e : Error)
      → is_mcp_transient_error w.heap v ≡ true
      → ((n : ℕ) → tries (suc n) v w ≡ (err e, w'))
      → IsFirstSettled (suc left) (λ n. tries n v w) (err e, w')
  unfolding tries
  ends left v w w' e b step = record {
    n = 1;
    within = omega arith;
    same = sym (step 0);
    earlier = elim [ zero ↦ λ h. b | suc j ↦ λ h. absurd (omega arith) ];
    settled = inr (λ x. rw (step 0) at x);
  }

  -- A try that gives another result is followed by what follows that.
  goes_on :
      (left : ℕ) (v next : Value) (w w' : World c.State) (r : Result Value × World c.State)
      → is_mcp_transient_error w.heap v ≡ true
      → ((n : ℕ) → tries (suc n) v w ≡ tries n next w')
      → IsFirstSettled left (λ n. tries n next w') r
      → IsFirstSettled (suc left) (λ n. tries n v w) r
  goes_on left v next w w' r b step ih = record {
    n = suc ih.n;
    within = omega (arith, ih.within);
    same = ih.same ∙ sym (step ih.n);
    earlier = elim [
      | zero ↦ λ h. unfold tries in b
      | suc j ↦ λ h. rw (step j) (ih.earlier j (omega arith))
    ];
    settled = elim ih.settled [
      | inl e ↦ inl (ap suc e)
      | inr f ↦ inr (λ x. f (rw (step ih.n) at x))
    ];
  }

  retry_loop-IsFirstSettled :
      (left : ℕ) (v : Value) (w : World c.State)
      → IsFirstSettled left (λ n. tries n v w) (retry_loop c cfg input left v w)
  unfolding retry_loop tries
  retry_loop-IsFirstSettled zero v w = record {
    n = 0;
    within = omega arith;
    same = refl;
    earlier = λ j h. elim h [ ];
    settled = inl refl;
  }
  retry_loop-IsFirstSettled (suc left) v w = elim (Bool-cases (is_mcp_transient_error w.heap v)) [
    | inr b ↦ record {
      n = 0;
      within = omega arith;
      same = rw (b, retry_loop);
      earlier = λ j h. elim h [ ];
      settled = inr (λ x. cc);
    }
    | inl b ↦ elim (Result-cases (wait c cfg input w).0) [
      | inr (e, p) ↦ rw (b, p, retry_loop) (ends left v w _ e b (λ n. rw p))
      | inl (u, p) ↦ elim (Result-cases (call_once c cfg input (wait c cfg input w).1).0) [
        | inr (e, q) ↦ rw (b, p, q, retry_loop) (ends left v w _ e b (λ n. rw (p, q)))
        | inl (next, q) ↦
            let w2 = (call_once c cfg input (wait c cfg input w).1).1 in
            rw (b, p, q, retry_loop)
              (goes_on left v next w w2 _ b (λ n. rw (p, q))
                (retry_loop-IsFirstSettled left next w2))
      ]
    ]
  ]

  -- Where the first call of the tool returns a result, `callToolWithRetry` returns the outcome of
  -- the first try that is settled (an error, or a result that is not a transient error), every
  -- earlier one asking for another, or that of the last try that the configured retries allow.
  pub call_tool_with_retry-IsFirstSettled :
      (v : Value) (w w1 : World c.State)
      → call_once c cfg input w ≡ (ok v, w1)
      → IsFirstSettled
          (pos_part cfg.call_tool_retries)
          (λ n. tries n v w1)
          (call_tool_with_retry c cfg input w)
  unfolding call_tool_with_retry
  call_tool_with_retry-IsFirstSettled v w w1 e =
      elim (Bool-cases (leb_ℤ cfg.call_tool_retries (pos 0))) [
        | inr b ↦ rw (e, b) (retry_loop-IsFirstSettled (pos_part cfg.call_tool_retries) v w1)
        | inl b ↦
            rw (e, b, not_positive cfg.call_tool_retries b)
              (unfold retry_loop in retry_loop-IsFirstSettled 0 v w1)
      ]
