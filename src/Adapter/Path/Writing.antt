-- ===== src/Adapter/Path/Writing.antt =====
-- `getPath` after `setPath` of adapter/pagination.go.
use Prim.Native.Char.{Char}
use Prim.Native.String.{[], ◌∷◌}
use mathlib.Core.List.{[], ◌∷◌}
use mcp_adapter_engram.Base.{
  ℕ, String, ◌≡◌, ◌≢◌, refl, sym, ap, ◌∙◌, some, List, ◌++◌, arith, Option-cases, Bool-cases, inl,
  inr, get_elem?, set, ok, insert, lookup-insert_self, ℤ, All, ◌⊎◌, pos, negsuc, Map,
  get_elem?-set_self,
}
use mcp_adapter_engram.Text.{is_empty}
use mcp_adapter_engram.Heap.{Value, Object, Heap, list, obj, entries, elems, as_map, as_list}
use mcp_adapter_engram.Heap.Laws.{
  address, as_map-set_ne, as_list-set_ne, as_map-set_self, as_list-set_self,
}
use mcp_adapter_engram.Adapter.Path.{
  PathToken, key_token, index_token, element, get_step, get_tokens, put_index, put_key,
  set_final_token, set_path, set_tokens, split_last, step_index, step_key, walk_to_parent,
  parse_path, get_path,
}
use mcp_adapter_engram.Adapter.Path.Parsing.{
  IsSimple, by_key, by_index, parse_path-IsSimple, parse_path-empty,
}
use mcp_adapter_engram.Adapter.Path.Reading.{
  get_tokens-concat, split_last-append, then_step, walk_to_parent-eq-get_tokens,
}

-- `v` does not share the object of `parent`.
abbrev pub Apart : Value → Value → Type 0
Apart parent v = (a : ℕ) → address parent ≡ some a → address v ≢ some a

-- No value on the way along the tokens, before its end, shares the object of `parent`.
abbrev pub Avoids : Heap → Value → Value → List PathToken → Type 0
Avoids h parent v [] = Unit
Avoids h parent v (tok ∷ toks) =
    Apart parent v × ((next : Value) → get_step h v tok ≡ some next → Avoids h parent next toks)

get_step-set_apart :
    (h : Heap) (a : ℕ) (o : Object) (v : Value) {tok : PathToken}
    → IsSimple tok
    → address v ≢ some a
    → get_step (set h a o) v tok ≡ get_step h v tok
unfolding get_step step_key step_index
get_step-set_apart h a o v (by_key c s) ne = rw (as_map-set_ne h a o v ne)
get_step-set_apart h a o v (by_index i) ne = rw (as_list-set_ne h a o v ne, step_index)

-- What a write to the parent leaves: the same heap, or one with another object for the parent.
Writes : Value → Heap → Heap → Type 0
Writes parent h h' =
    (h' ≡ h) ⊎ ((a : ℕ) × (address parent ≡ some a) × (o : Object) × (h' ≡ set h a o))

put_key-Writes : (h : Heap) (v : Value) (k : String) (w : Value) → Writes v h (put_key h v k w)
unfolding put_key Writes
put_key-Writes h (obj a) k w = elim (Option-cases (as_map h (obj a))) [
  | inl e ↦ inl (rw (e, put_key))
  | inr (m, e) ↦ inr (a, refl, entries (insert k w m), rw (e, put_key))
]
put_key-Writes h _ k w = inl refl

put_index-Writes : (h : Heap) (v : Value) (i : ℤ) (w : Value) → Writes v h (put_index h v i w)
unfolding put_index Writes
put_index-Writes h (list a) (pos i) w = elim (Option-cases (as_list h (list a))) [
  | inl e ↦ inl (rw (e, put_index))
  | inr (xs, e) ↦ inr (a, refl, elems (set xs i w), rw (e, put_index))
]
put_index-Writes h _ _ w = inl refl

set_final_token-Writes :
    (h : Heap) (parent : Value) (w : Value) {tok : PathToken}
    → IsSimple tok
    → Writes parent h (set_final_token h parent tok w)
unfolding set_final_token
set_final_token-Writes h parent w (by_key c s) = put_key-Writes h parent _ w
set_final_token-Writes h parent w (by_index i) = put_index-Writes h parent i w

get_step-Writes :
    (h h' : Heap) (parent v : Value) {tok : PathToken}
    → Writes parent h h'
    → IsSimple tok
    → Apart parent v
    → get_step h' v tok ≡ get_step h v tok
unfolding Writes
get_step-Writes h h' parent v (inl e) s apart = rw e
get_step-Writes h h' parent v (inr (a, p, o, e)) s apart =
    rw e (get_step-set_apart h a o v s (apart a p))

get_tokens-Writes :
    (h h' : Heap) (parent v : Value) (toks : List PathToken)
    → Writes parent h h'
    → All IsSimple toks
    → Avoids h parent v toks
    → get_tokens h' v toks ≡ get_tokens h v toks
unfolding get_tokens
get_tokens-Writes h h' parent v [] wr s av = refl
get_tokens-Writes h h' parent v (tok ∷ toks) wr s av =
    rw (get_step-Writes h h' parent v wr s.0 av.0, get_tokens)
      (elim (Option-cases (get_step h v tok)) [
        | inl e ↦ rw (e, get_tokens)
        | inr (w, e) ↦ rw (e, get_tokens) (get_tokens-Writes h h' parent w toks wr s.1 (av.1 w e))
      ])

as_map-of_key_read :
    (h : Heap) (v : Value) (c : Char) (s : String) {old : Value}
    → get_step h v (key_token (c ∷ s)) ≡ some old
    → (a : ℕ) × (m : Map Value) × (v ≡ obj a) × (as_map h (obj a) ≡ some m)
unfolding get_step step_key step_index
as_map-of_key_read h (obj a) c s e = elim (Option-cases (as_map h (obj a))) [
  | inl n ↦ absurd (ground arith)
  | inr (m, y) ↦ (a, m, refl, y)
]
as_map-of_key_read h _ c s e = unfold as_map in cc

as_list-of_index_read :
    (h : Heap) (v : Value) (i : ℤ) {old : Value}
    → get_step h v (index_token i) ≡ some old
    → (a n : ℕ) × (xs : List Value) × (v ≡ list a)
      × (i ≡ pos n)
      × (as_list h (list a) ≡ some xs)
      × (get_elem? xs n ≡ some old)
unfolding get_step step_key step_index element
as_list-of_index_read h (list a) (pos n) e = elim (Option-cases (as_list h (list a))) [
  | inl n' ↦ absurd (ground arith)
  | inr (xs, y) ↦ (a, n, xs, refl, refl, y, ground arith)
]
as_list-of_index_read h (list a) (negsuc n) e =
    absurd (ground (arith, Option-cases (as_list h (list a))))
as_list-of_index_read h _ i e = unfold as_list in cc

set_final_token-read :
    (h : Heap) (parent w : Value) {tok : PathToken} {old : Value}
    → IsSimple tok
    → get_step h parent tok ≡ some old
    → get_step (set_final_token h parent tok w) parent tok ≡ some w
set_final_token-read h parent w (by_key c s) e =
    let (a, m, p, y) = as_map-of_key_read h parent c s e in
    let k : String = c ∷ s in
    rw p (
      unfold get_step step_key step_index set_final_token put_key in
      rw (y, put_key) (rw (as_map-set_self h a (insert k w m) y, lookup-insert_self k w m)))
set_final_token-read h parent w (by_index i) e =
    let (a, n, xs, p, q, y, z) = as_list-of_index_read h parent i e in
    rw (p, q)
      (unfold get_step step_key step_index set_final_token put_index element in
        rw (y, put_index)
          (rw (as_list-set_self h a (set xs n w) y, step_index) (get_elem?-set_self xs n w z)))

All-split_last :
    (t : PathToken) (ts : List PathToken)
    → All IsSimple (t ∷ ts)
    → All IsSimple (split_last t ts).0 × IsSimple (split_last t ts).1
unfolding split_last
All-split_last t [] s = (tt, s.0)
All-split_last t (u ∷ us) s = let (front, last) = All-split_last u us s.1 in ((s.0, front), last)

-- A place that can be read can be written: afterwards reading it gives the value written, if on
-- the way to the parent of the place no value shares the parent's object.
pub get_tokens-set_tokens :
    (h : Heap) (root parent w : Value) (t : PathToken) (ts : List PathToken) {old : Value}
    → All IsSimple (t ∷ ts)
    → get_tokens h root (split_last t ts).0 ≡ some parent
    → get_tokens h root (t ∷ ts) ≡ some old
    → Avoids h parent root (split_last t ts).0
    → get_tokens (set_tokens h root (t ∷ ts) w) root (t ∷ ts) ≡ some w
unfolding set_tokens
get_tokens-set_tokens h root parent w t ts {old} s p e av =
    let (front, last) = split_last t ts in
    let join : front ++ last ∷ [] ≡ t ∷ ts = split_last-append t ts in
    let (sf, sl) = All-split_last t ts s in
    let walk : walk_to_parent h root front ≡ some parent =
      walk_to_parent-eq-get_tokens h root front ∙ p in
    let h' = set_final_token h parent last w in
    let read : get_step h parent last ≡ some old =
      sym (ap (then_step h last) p)
      ∙ sym (get_tokens-concat h root front last)
      ∙ ap (get_tokens h root) join
      ∙ e in
    rw (walk, set_tokens)
      (sym (ap (get_tokens h' root) join)
        ∙ get_tokens-concat h' root front last
        ∙ ap (then_step h' last) (
            get_tokens-Writes h h' parent root front (set_final_token-Writes h parent w sl) sf av
            ∙ p)
        ∙ set_final_token-read h parent w sl read)

-- A path of a payload that can be read can be written: reading it afterwards gives the value
-- written, if on the way to the parent of the place no value shares the parent's object.
pub get_path-set_path :
    (h : Heap) (root parent w : Value) (path : String) (t : PathToken) (ts : List PathToken)
    {old : Value}
    → parse_path path ≡ ok (t ∷ ts)
    → get_tokens h root (split_last t ts).0 ≡ some parent
    → get_path h root path ≡ some old
    → Avoids h parent root (split_last t ts).0
    → get_path (set_path h root path w) root path ≡ some w
unfolding get_path set_path
get_path-set_path h root parent w path t ts {old} parsed p e av =
    elim (Bool-cases (is_empty path)) [
      | inl b ↦ absurd (ground (arith, parse_path-empty path))
      | inr b ↦
          let read : get_tokens h root (t ∷ ts) ≡ some old = ground arith in
          let s = parse_path-IsSimple path parsed in
          rw (b, parsed, get_path)
            (rw (b, parsed, set_path) (get_tokens-set_tokens h root parent w t ts s p read av))
    ]
