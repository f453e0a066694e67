-- ===== src/Adapter/Path/Reading.antt =====
-- The two walks of adapter/pagination.go along a path, `getPath` and `walkToParent`, agree.
use mcp_adapter_engram.Base.{
  ◌≡◌, refl, Option, none, some, List, [], ◌∷◌, ◌++◌, arith, Option-cases, inl, inr,
}
use mcp_adapter_engram.Heap.{Value, Heap}
use mcp_adapter_engram.Adapter.Path.{
  PathToken, descend, get_step, get_tokens, split_last, walk_to_parent,
}

pub descend-eq-get_step :
    (h : Heap) (v : Value) (tok : PathToken) → descend h v tok ≡ get_step h v tok
unfolding descend get_step
descend-eq-get_step h v tok = ground arith

-- From any value, along any tokens, `walkToParent` reaches what the loop of `getPath` reaches,
-- and fails where it fails.
pub walk_to_parent-eq-get_tokens :
    (h : Heap) (v : Value) (toks : List PathToken) → walk_to_parent h v toks ≡ get_tokens h v toks
unfolding walk_to_parent get_tokens
walk_to_parent-eq-get_tokens h v [] = refl
walk_to_parent-eq-get_tokens h v (tok ∷ toks) = elim (Option-cases (get_step h v tok)) [
  | inl e ↦ ground (arith, descend-eq-get_step h v tok)
  | inr (w, e) ↦ ground (arith, descend-eq-get_step h v tok, walk_to_parent-eq-get_tokens h w toks)
]

-- A path is read up to its last token, and then by that one.
abbrev pub then_step : Heap → PathToken → Option Value → Option Value
then_step h tok none = none
then_step h tok (some v) = get_step h v tok

pub get_tokens-concat :
    (h : Heap) (v : Value) (toks : List PathToken) (tok : PathToken)
    → get_tokens h v (toks ++ tok ∷ []) ≡ then_step h tok (get_tokens h v toks)
unfolding get_tokens
get_tokens-concat h v [] tok = ground arith
get_tokens-concat h v (t ∷ toks) tok = elim (Option-cases (get_step h v t)) [
  | inl e ↦ rw (e, get_tokens)
  | inr (w, e) ↦ rw (e, get_tokens) (get_tokens-concat h w toks tok)
]

pub split_last-append :
    (t : PathToken) (ts : List PathToken) → (split_last t ts).0 ++ (split_last t ts).1 ∷ [] ≡ t ∷ ts
unfolding split_last
split_last-append t [] = refl
split_last-append t (u ∷ us) = cc (split_last-append u us)
