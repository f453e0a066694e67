-- ===== src/Base/Maps.antt =====
-- Go's `map[string]V` as an association list in the order of first insertion.
use Prim.Native.String.{String}
use mathlib.Core.Path.{◌≡◌, refl, ap, ◌∙◌}
use mathlib.Core.Logic.{inl, inr}
use mathlib.Core.Option.{Option, none, some}
use mathlib.Core.List.{List, [], ◌∷◌}
use native.Mathlib.Omega.{arith}
use text.Mathlib.Text.{◌==◌ as str_eq}
use text.Mathlib.TextEquality.{eq_iff}
use text.Mathlib.TextPositions.{eq_refl}
use mcp_adapter_engram.Base.Tests.{if◌then◌else◌, Bool-cases}

abbrev pub Map {ℓ} : Type ℓ → Type ℓ
Map V = List (String × V)

module _ {ℓ} {V : Type ℓ} where
  -- `v, ok := m[k]`
  unfoldable pub lookup : String → Map V → Option V
  lookup k [] = none
  lookup k ((j, v) ∷ m) = if str_eq j k then some v else lookup k m

  -- `m[k] = v`
  unfoldable pub insert : String → V → Map V → Map V
  insert k v [] = (k, v) ∷ []
  insert k v ((j, w) ∷ m) = if str_eq j k then (k, v) ∷ m else (j, w) ∷ insert k v m

  -- `maps.Copy(into, from)`, and the loop `for k, v := range from { into[k] = v }`
  unfoldable pub copy_into : Map V → Map V → Map V
  copy_into into [] = into
  copy_into into ((k, v) ∷ from) = copy_into (insert k v into) from

  pub lookup-insert :
      (key other : String) (v : V) (m : Map V)
      → lookup other (insert key v m) ≡ (if str_eq key other then some v else lookup other m)
  unfolding lookup insert
  lookup-insert key other v [] = refl
  lookup-insert key other v ((first, w) ∷ rest) = ground (
    arith,
    lookup-insert key other v rest,
    eq_iff first key,
    eq_iff first other,
    eq_iff key other,
  )

  pub lookup-insert_self : (k : String) (v : V) (m : Map V) → lookup k (insert k v m) ≡ some v
  lookup-insert_self k v m = simp (lookup-insert, eq_refl)

-- No key twice, as in a map of Go.
abbrev pub IsDistinct {ℓ} : {V : Type ℓ} → Map V → Type ℓ
IsDistinct [] = Unit
IsDistinct ((k, v) ∷ m) = (lookup k m ≡ none) × IsDistinct m

abbrev pub or_else {ℓ} : {A : Type ℓ} → Option A → Option A → Option A
or_else (some v) w = some v
or_else none w = w

pub or_else-none {ℓ} : {A : Type ℓ} (o : Option A) → or_else o none ≡ o
or_else-none none = refl
or_else-none (some v) = refl

-- A key has the value of the map copied in, where that has one, and keeps its own where not.
pub lookup-copy_into {ℓ} :
    {V : Type ℓ} (key : String) (into from : Map V)
    → IsDistinct from
    → lookup key (copy_into into from) ≡ or_else (lookup key from) (lookup key into)
unfolding lookup copy_into
lookup-copy_into key into [] d = refl
lookup-copy_into key into ((k, v) ∷ from) d =
    let ih = lookup-copy_into key (insert k v into) from d.1 in
    elim (Bool-cases (str_eq k key)) [
      | inr b ↦
          let read : lookup key (insert k v into) ≡ lookup key into =
            ground (arith, lookup-insert k key v into) in
          rw b (ih ∙ ap (λ o. or_else (lookup key from) o) read)
      | inl b ↦
          let same : k ≡ key = ground (arith, eq_iff k key) in
          let read : lookup key (insert k v into) ≡ some v =
            ground (arith, lookup-insert k key v into) in
          let absent : lookup key from ≡ none = rw same at d.0 in rw b (ih ∙ rw (absent, read) refl)
    ]

-- Maps that are written to stay without double keys.
pub IsDistinct-insert {ℓ} :
    {V : Type ℓ} (k : String) (v : V) (m : Map V) → IsDistinct m → IsDistinct (insert k v m)
unfolding insert lookup
IsDistinct-insert k v [] d = (refl, tt)
IsDistinct-insert k v ((j, w) ∷ m) d = elim (Bool-cases (str_eq j k)) [
  | inl b ↦ let same : j ≡ k = (eq_iff j k).0 b in rw (b, insert) (rw same at d.0, d.1)
  | inr b ↦
      let absent : lookup j (insert k v m) ≡ none =
        ground (arith, lookup-insert k j v m, eq_iff j k, eq_iff k j, d.0) in
      rw (b, insert) (absent, IsDistinct-insert k v m d.1)
]

pub IsDistinct-copy_into {ℓ} :
    {V : Type ℓ} (into from : Map V) → IsDistinct into → IsDistinct (copy_into into from)
unfolding copy_into
IsDistinct-copy_into into [] d = d
IsDistinct-copy_into into ((k, v) ∷ from) d =
    IsDistinct-copy_into (insert k v into) from (IsDistinct-insert k v into d)
