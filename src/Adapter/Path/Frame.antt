-- ===== src/Adapter/Path/Frame.antt =====
-- What `setPath` of adapter/pagination.go writes. The values of a payload are shared objects, so a
-- write is stated on the whole heap.
use Prim.Native.String.{[], ◌∷◌}
use mathlib.Core.List.{[], ◌∷◌}
use mcp_adapter_engram.Base.{
  ℕ, String, ◌≡◌, ◌≢◌, refl, List, Option-cases, Bool-cases, inl, inr, length, length-set,
  get_elem?, get_elem?-set_ne, set, ℤ, Result-cases, pos,
}
use mcp_adapter_engram.Text.{is_empty}
use mcp_adapter_engram.Heap.{Value, Object, Heap, list, obj, as_map, as_list}
use mcp_adapter_engram.Adapter.Path.{
  PathToken, put_index, put_key, set_final_token, set_path, set_tokens, split_last, walk_to_parent,
  parse_path,
}

-- At most one object differs, and none is added or taken away.
abbrev pub ChangesOne : Heap → Heap → Type 0
ChangesOne h h' =
    (a : ℕ) × (length h' ≡ length h) × ((b : ℕ) → a ≢ b → get_elem? h' b ≡ get_elem? h b)

ChangesOne-refl : (h : Heap) → ChangesOne h h
ChangesOne-refl h = (0, refl, λ b _. refl)

ChangesOne-set : (h : Heap) (a : ℕ) (o : Object) → ChangesOne h (set h a o)
ChangesOne-set h a o = (a, length-set h a o, λ b ne. get_elem?-set_ne h a b o ne)

put_key-ChangesOne :
    (h : Heap) (v : Value) (k : String) (w : Value) → ChangesOne h (put_key h v k w)
unfolding put_key
put_key-ChangesOne h (obj a) k w = elim (Option-cases (as_map h (obj a))) [
  | inl e ↦ rw (e, put_key) (ChangesOne-refl h)
  | inr (m, e) ↦ rw (e, put_key) (ChangesOne-set h a _)
]
put_key-ChangesOne h _ k w = ChangesOne-refl h

put_index-ChangesOne : (h : Heap) (v : Value) (i : ℤ) (w : Value) → ChangesOne h (put_index h v i w)
unfolding put_index
put_index-ChangesOne h (list a) (pos i) w = elim (Option-cases (as_list h (list a))) [
  | inl e ↦ rw (e, put_index) (ChangesOne-refl h)
  | inr (xs, e) ↦ rw (e, put_index) (ChangesOne-set h a _)
]
put_index-ChangesOne h _ _ w = ChangesOne-refl h

set_final_token-ChangesOne :
    (h : Heap) (v : Value) (tok : PathToken) (w : Value) → ChangesOne h (set_final_token h v tok w)
unfolding set_final_token
set_final_token-ChangesOne h v tok w = elim (Bool-cases (is_empty tok.key)) [
  | inr e ↦ rw (e, set_final_token) (put_key-ChangesOne h v tok.key w)
  | inl e ↦ elim (Option-cases tok.index) [
    | inl i ↦ rw (e, i, set_final_token) (ChangesOne-refl h)
    | inr (i, p) ↦ rw (e, p, set_final_token) (put_index-ChangesOne h v i w)
  ]
]

set_tokens-ChangesOne :
    (h : Heap) (root : Value) (toks : List PathToken) (w : Value)
    → ChangesOne h (set_tokens h root toks w)
unfolding set_tokens
set_tokens-ChangesOne h root [] w = ChangesOne-refl h
set_tokens-ChangesOne h root (t ∷ ts) w =
    elim (Option-cases (walk_to_parent h root (split_last t ts).0)) [
      | inl e ↦ rw (e, set_tokens) (ChangesOne-refl h)
      | inr (parent, e) ↦ rw (e, set_tokens) (set_final_token-ChangesOne h parent _ w)
    ]

-- Whatever the path, a write changes at most one object of the heap, and it neither adds an
-- object nor removes one.
pub set_path-ChangesOne :
    (h : Heap) (root : Value) (path : String) (w : Value) → ChangesOne h (set_path h root path w)
unfolding set_path
set_path-ChangesOne h root path w = elim (Bool-cases (is_empty path)) [
  | inl e ↦ rw e (ChangesOne-refl h)
  | inr e ↦ elim (Result-cases (parse_path path)) [
    | inl (toks, p) ↦ rw (e, p, set_path) (set_tokens-ChangesOne h root toks w)
    | inr (x, p) ↦ rw (e, p, set_path) (ChangesOne-refl h)
  ]
]
