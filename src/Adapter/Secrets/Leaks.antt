-- ===== src/Adapter/Secrets/Leaks.antt =====
-- Which variables of the environment a bucket of adapter/handler.go shows.
use mathlib.Core.List.{Memᴰ}
use Prim.Native.Char.{Char, code}
use Prim.Native.String.{[], ◌∷◌}
use mathlib.Core.List.{[], ◌∷◌}
use text.Mathlib.Text.{◌==◌ as str_eq}
use text.Mathlib.TextEquality.{eq_iff, Char-path}
use text.Mathlib.TextLemmas.{nil-append, cons-append, append_assoc}
use mcp_adapter_engram.Base.{
  String, ◌<>◌, ◌≡◌, ◌≢◌, sym, ◌∙◌, ◌⊎◌, inl, inr, some, List, Map, lookup, insert, lookup-insert,
  arith, Option-cases, Bool-cases, ◌==◌,
}
use mcp_adapter_engram.Text.{is_empty, cut, cut_prefix}
use mcp_adapter_engram.Adapter.Secrets.{add_variable, expand_env}

cut_prefix_sound : (s p r : String) → cut_prefix s p ≡ some r → s ≡ p <> r
unfolding cut_prefix
cut_prefix_sound s [] r e = let same : s ≡ r = ground arith in same ∙ sym (nil-append r)
cut_prefix_sound [] (d ∷ p) r e = absurd (ground arith)
cut_prefix_sound (c ∷ s) (d ∷ p) r e = elim (Bool-cases (code c == code d)) [
  | inl b ↦
      let same = Char-path c d (ground arith) in
      cc (same, cut_prefix_sound s p r (ground arith), cons-append d p r)
  | inr b ↦ absurd (ground arith)
]

cut_sound : (s a b : String) → cut b'=' s ≡ some (a, b) → s ≡ a <> ("=" <> b)
unfolding cut
cut_sound [] a b e = absurd (ground arith)
cut_sound (c ∷ s) a b e = elim (Bool-cases (code c == b'=')) [
  | inl t ↦
      let equals : Char = "=" in
      let same = Char-path c equals (ground arith) in
      let empty : a ≡ [] = ground arith in
      let rest : s ≡ b = ground arith in
      cc (same, empty, rest, nil-append ("=" <> b), cons-append equals [] b, nil-append b)
  | inr f ↦ elim (Option-cases (cut b'=' s)) [
    | inl n ↦ absurd (ground arith)
    | inr ((a', b'), g) ↦
        let front : a ≡ c ∷ a' = ground arith in
        let rest : b' ≡ b = ground arith in
        cc (front, rest, cut_sound s a' b' g, cons-append c a' ("=" <> b'))
  ]
]

-- A variable of the environment that a bucket with the prefix may show under a key.
abbrev pub IsShown : String → List String → String → String → Type 0
IsShown prefix envs key v = (key ≢ "") × Memᴰ (prefix <> (key <> ("=" <> v))) envs

add_variable-lookup :
    (prefix env key v : String) (out : Map String)
    → lookup key (add_variable prefix (cut b'=' env) out) ≡ some v
    → (lookup key out ≡ some v) ⊎ ((key ≢ "") × (env ≡ prefix <> (key <> ("=" <> v))))
add_variable-lookup prefix env key v out e = elim (Option-cases (cut b'=' env)) [
  | inl n ↦ inl (rw n at e)
  | inr ((name, value), f) ↦ elim (Option-cases (cut_prefix name prefix)) [
    | inl n ↦ inl (rw n at rw f at e)
    | inr (k, g) ↦ elim (Bool-cases (is_empty k)) [
      | inl b ↦ inl (rw b at rw g at rw f at e)
      | inr b ↦
          let read = lookup-insert k key value out in
          let added : lookup key (insert k value out) ≡ some v = rw (f, g, b) at e in
          elim (Bool-cases (str_eq k key)) [
            | inr h ↦ inl (ground arith)
            | inl h ↦
                let same : k ≡ key = ground (arith, eq_iff k key) in
                let value_eq : value ≡ v = ground arith in
                inr (
                  λ q. absurd (cc (b, same, q)),
                  cc (
                    cut_sound env name value f,
                    cut_prefix_sound name prefix k g,
                    same,
                    value_eq,
                    append_assoc prefix k ("=" <> value),
                  ),
                )
          ]
    ]
  ]
]

-- What a bucket shows, beyond what was there, are variables of the environment whose name is the
-- prefix followed by the key, and the key is not empty.
pub expand_env-IsShown :
    (prefix : String) (envs : List String) (key v : String) (out : Map String)
    → lookup key (expand_env prefix envs out) ≡ some v
    → (lookup key out ≡ some v) ⊎ IsShown prefix envs key v
unfolding expand_env
expand_env-IsShown prefix [] key v out e = inl e
expand_env-IsShown prefix (env ∷ envs) key v out e =
    elim (expand_env-IsShown prefix envs key v (add_variable prefix (cut b'=' env) out) e) [
      | inr (ne, m) ↦ inr (ne, Memᴰ.tail m)
      | inl f ↦ elim (add_variable-lookup prefix env key v out f) [
        | inl g ↦ inl g
        | inr (ne, g) ↦ inr (ne, Memᴰ.head (sym g))
      ]
    ]
