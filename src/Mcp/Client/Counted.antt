-- ===== src/Mcp/Client/Counted.antt =====
-- A client that counts the tool calls made through it, to state how many a routine makes.
use mcp_adapter_engram.Base.{ℕ, suc, ◌+◌, ◌≤◌, inl, inr, Result-cases, arith}
use mcp_adapter_engram.Base.Exec.{Exec, ◌>>=◌}
use mcp_adapter_engram.Mcp.Client.{Client, World}

abbrev pub counted : Client → Client
counted c = record {
  State = c.State × ℕ;
  initialize = λ h caps s. let (r, t) = c.initialize h caps s.0 in (r, (t, s.1));
  notify_initialized = λ s. let (r, t) = c.notify_initialized s.0 in (r, (t, s.1));
  list_tools = λ s. let (r, t) = c.list_tools s.0 in (r, (t, s.1));
  call_tool = λ h tool args s. let (r, t) = c.call_tool h tool args s.0 in (r, (t, suc s.1));
  list_resources = λ s. let (r, t) = c.list_resources s.0 in (r, (t, s.1));
  read_resource = λ uri s. let (r, t) = c.read_resource uri s.0 in (r, (t, s.1));
  get_prompt = λ name s. let (r, t) = c.get_prompt name s.0 in (r, (t, s.1));
  pause = λ d s. let (r, t) = c.pause d s.0 in (r, (t, s.1));
}

module _ (c : Client) where
  -- The tool calls made so far.
  abbrev pub calls : World (counted c).State → ℕ
  calls w = w.remote.1

  -- Between `lo` and `hi` tool calls, whatever the state and whatever comes back.
  pub record Costs {A : Type 0} (lo hi : ℕ) (m : Exec (World (counted c).State) A) : Type 0 where
    pub at :
        (w : World (counted c).State)
        → (calls w + lo ≤ calls (m w).1) × (calls (m w).1 ≤ calls w + hi)

  pub Costs-bind :
      {A B : Type 0} {lo hi more : ℕ} (m : Exec (World (counted c).State) A)
      (f : A → Exec (World (counted c).State) B)
      → Costs lo hi m
      → ((a : A) → Costs 0 more (f a))
      → Costs lo (hi + more) (m >>= f)
  Costs-bind m f cm cf = record {
    at = λ w. elim (Result-cases (m w).0) [
      | inl (a, e) ↦ rw e (omega (arith, cm.at w, (cf a).at (m w).1))
      | inr (x, e) ↦ rw e (omega (arith, cm.at w))
    ];
  }

  pub Costs-weaken :
      {A : Type 0} {lo hi lo' hi' : ℕ} {m : Exec (World (counted c).State) A}
      → Costs lo hi m
      → lo' ≤ lo
      → hi ≤ hi'
      → Costs lo' hi' m
  Costs-weaken cm p q = record { at = λ w. omega (arith, cm.at w) }
