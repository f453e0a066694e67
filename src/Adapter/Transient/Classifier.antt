-- ===== src/Adapter/Transient/Classifier.antt =====
-- The classifier of transient errors of adapter/handler.go against a description of it.
use mcp_adapter_engram.Base.{
  ℕ, ◌+◌, ◌≤◌, ◌≡◌, ◌↔◌, ◌⊎◌, inl, inr, refl, ap, Bool-cases, Option-cases, String, true, false,
  Option, none, some, List, [], ◌∷◌, ◌++◌, arith, Map, lookup, ℤ, pos, negsuc,
}
use mathlib.Core.List.{Memᴰ}
use mcp_adapter_engram.Text.{trim_space, to_lower, codes, contains, codes_prefix, is_empty}
use mcp_adapter_engram.Heap.{Value, Heap, as_bool, or_nil}
use mcp_adapter_engram.Adapter.Transient.{
  any_transient, extract_mcp_error_code, extract_mcp_error_messages, has_hint,
  is_mcp_transient_error, is_transient_error_code, is_transient_error_message, transient_hints,
  unwrap_mcp_result, code_is_transient,
}

-- One text occurs in another.
abbrev pub IsInfix : List ℕ → List ℕ → Type 0
IsInfix t s = (before after : List ℕ) × (s ≡ before ++ (t ++ after))

codes_prefix_iff :
    (s p : List ℕ) → (codes_prefix s p ≡ true) ↔ ((after : List ℕ) × (s ≡ p ++ after))
unfolding codes_prefix
codes_prefix_iff s [] = (λ _. (s, refl), λ _. refl)
codes_prefix_iff [] (d ∷ p) = (λ e. absurd (ground arith), λ e. absurd (ground arith))
codes_prefix_iff (c ∷ s) (d ∷ p) = (
  λ e.
      let (after, q) = (codes_prefix_iff s p).0 (ground arith) in
      let r : c ≡ d = ground arith in (after, cc),
  λ (after, e). ground (arith, (codes_prefix_iff s p).1 (after, ground arith)),
)

contains_sound : (s t : List ℕ) → contains s t ≡ true → IsInfix t s
unfolding contains
contains_sound [] t e = let (after, q) = (codes_prefix_iff [] t).0 e in ([], after, q)
contains_sound (c ∷ s) t e = elim (Bool-cases (codes_prefix (c ∷ s) t)) [
  | inl b ↦ let (after, q) = (codes_prefix_iff (c ∷ s) t).0 b in ([], after, q)
  | inr b ↦
      let (before, after, q) = contains_sound s t (rw b at e) in
      (c ∷ before, after, ap (λ l. c ∷ l) q)
]

contains_complete : (s t before after : List ℕ) → s ≡ before ++ (t ++ after) → contains s t ≡ true
unfolding contains
contains_complete [] t [] after e = (codes_prefix_iff [] t).1 (after, e)
contains_complete [] t (b ∷ before) after e = absurd (ground arith)
contains_complete (c ∷ s) t [] after e = ground (arith, (codes_prefix_iff (c ∷ s) t).1 (after, e))
contains_complete (c ∷ s) t (b ∷ before) after e =
    ground (arith, contains_complete s t before after)

-- `strings.Contains` finds a text exactly when it occurs.
pub contains_iff : (s t : List ℕ) → (contains s t ≡ true) ↔ IsInfix t s
contains_iff s t = (contains_sound s t, λ (before, after, e). contains_complete s t before after e)

abbrev pub HasHint : List ℕ → List String → Type 0
HasHint msg hints = (hint : String) × Memᴰ hint hints × IsInfix (codes hint) msg

has_hint_sound :
    (msg : List ℕ) (hints : List String) → has_hint msg hints ≡ true → HasHint msg hints
unfolding has_hint
has_hint_sound msg [] e = absurd (ground arith)
has_hint_sound msg (hint ∷ hints) e = elim (Bool-cases (contains msg (codes hint))) [
  | inl b ↦ (hint, Memᴰ.head refl, contains_sound msg (codes hint) b)
  | inr b ↦ let (t, m, i) = has_hint_sound msg hints (rw b at e) in (t, Memᴰ.tail m, i)
]

has_hint_complete :
    (msg : List ℕ) (hints : List String) (hint : String)
    → Memᴰ hint hints
    → IsInfix (codes hint) msg
    → has_hint msg hints ≡ true
unfolding has_hint
has_hint_complete msg [] hint m i = elim m [ ]
has_hint_complete msg (t ∷ hints) hint (Memᴰ.head e) (before, after, q) =
    ground (arith, contains_complete msg (codes t) before after (rw (← e) q))
has_hint_complete msg (t ∷ hints) hint (Memᴰ.tail m) i =
    ground (arith, has_hint_complete msg hints hint m i)

-- The text, trimmed and in lower case, holds one of the hints.
abbrev pub IsTransientText : String → Type 0
IsTransientText text = HasHint (to_lower (trim_space text)) transient_hints

to_lower-empty : (s : String) → is_empty s ≡ true → to_lower s ≡ []
unfolding to_lower
to_lower-empty String.[] e = refl
to_lower-empty (String.◌∷◌ c s) e = absurd (ground arith)

no_hint_in_nil : has_hint [] transient_hints ≡ false
unfolding has_hint contains codes
no_hint_in_nil = refl

is_transient_error_message_iff :
    (text : String) → (is_transient_error_message text ≡ true) ↔ IsTransientText text
unfolding is_transient_error_message
is_transient_error_message_iff text = elim (Bool-cases (is_empty (trim_space text))) [
  | inl b ↦ (
    λ e. absurd (ground arith),
    λ (hint, m, i).
        let found = has_hint_complete (to_lower (trim_space text)) transient_hints hint m i in
        absurd (cc (found, to_lower-empty (trim_space text) b, no_hint_in_nil)),
  )
  | inr b ↦ rw b (
    has_hint_sound (to_lower (trim_space text)) transient_hints,
    λ (hint, m, i). has_hint_complete (to_lower (trim_space text)) transient_hints hint m i,
  )
]

abbrev pub IsTransientCode : ℤ → Type 0
IsTransientCode (negsuc n) = (32000 ≤ n + 1) × (n + 1 ≤ 32099)
IsTransientCode (pos n) =
    (n ≡ 408) ⊎ ((n ≡ 425) ⊎ ((n ≡ 429) ⊎ ((n ≡ 500) ⊎ ((n ≡ 502) ⊎ ((n ≡ 503) ⊎ (n ≡ 504))))))

is_transient_error_code_iff :
    (code : ℤ) → (is_transient_error_code code ≡ true) ↔ IsTransientCode code
unfolding is_transient_error_code
is_transient_error_code_iff (negsuc n) = ground arith
is_transient_error_code_iff (pos n) = ground arith

first_or_rest :
    {x : String} {msgs : List String} (msg : String)
    → Memᴰ msg (x ∷ msgs)
    → IsTransientText msg
    → (IsTransientText x → is_transient_error_message x ≡ true)
    → (((m : String) × Memᴰ m msgs × IsTransientText m) → any_transient msgs ≡ true)
    → any_transient (x ∷ msgs) ≡ true
unfolding any_transient
first_or_rest msg (Memᴰ.head e) t here there = let found = here (rw e at t) in ground arith
first_or_rest {x} msg (Memᴰ.tail m) t here there =
    let found = there (msg, m, t) in ground (arith, Bool-cases (is_transient_error_message x))

any_transient_iff :
    (msgs : List String)
    → (any_transient msgs ≡ true) ↔ ((msg : String) × Memᴰ msg msgs × IsTransientText msg)
unfolding any_transient
any_transient_iff [] = (λ e. absurd (ground arith), λ (msg, m, t). elim m [ ])
any_transient_iff (x ∷ msgs) =
    let here = is_transient_error_message_iff x in
    let there = any_transient_iff msgs in
    (
      λ e. elim (Bool-cases (is_transient_error_message x)) [
        | inl b ↦ (x, Memᴰ.head refl, here.0 b)
        | inr b ↦ let (msg, m, t) = there.0 (rw b at e) in (msg, Memᴰ.tail m, t)
      ],
      λ (msg, m, t). first_or_rest msg m t here.1 there.1,
    )

-- What a result must look like to be tried again: a payload with "isError" true, and a transient
-- code or a message with a hint in it.
abbrev pub IsTransient : Heap → Value → Type 0
IsTransient h result =
    (payload : Map Value) × (unwrap_mcp_result h result ≡ some payload)
    × (as_bool (or_nil (lookup "isError" payload)) ≡ true)
    × (((code : ℤ) × (extract_mcp_error_code h payload ≡ some code) × IsTransientCode code)
        ⊎ ((msg : String) × Memᴰ msg (extract_mcp_error_messages h payload) × IsTransientText msg))

code_is_transient_iff :
    (o : Option ℤ)
    → (code_is_transient o ≡ true) ↔ ((code : ℤ) × (o ≡ some code) × IsTransientCode code)
code_is_transient_iff none = (λ e. absurd (ground arith), λ (code, e, t). absurd (ground arith))
code_is_transient_iff (some code) = (
  λ e. (code, refl, (is_transient_error_code_iff code).0 e),
  λ (c, e, t).
      let same : c ≡ code = ground arith in (is_transient_error_code_iff code).1 (rw (← same) t),
)

module _ (h : Heap) (result : Value) where
  sound : is_mcp_transient_error h result ≡ true → IsTransient h result
  unfolding is_mcp_transient_error
  sound x = elim (Option-cases (unwrap_mcp_result h result)) [
    | inl e ↦ absurd (ground arith)
    | inr (payload, e) ↦
        let by_code = code_is_transient_iff (extract_mcp_error_code h payload) in
        let by_message = any_transient_iff (extract_mcp_error_messages h payload) in
        elim (Bool-cases (code_is_transient (extract_mcp_error_code h payload))) [
          | inl b ↦ (payload, e, ground arith, inl (by_code.0 b))
          | inr b ↦ (payload, e, ground arith, inr (by_message.0 (ground arith)))
        ]
  ]

  complete :
      (payload : Map Value)
      → unwrap_mcp_result h result ≡ some payload
      → as_bool (or_nil (lookup "isError" payload)) ≡ true
      → (code_is_transient (extract_mcp_error_code h payload) ≡ true)
        ⊎ (any_transient (extract_mcp_error_messages h payload) ≡ true)
      → is_mcp_transient_error h result ≡ true
  unfolding is_mcp_transient_error
  complete payload e b t = ground arith

-- A result is classified as transient exactly when it is one: it is a map, in its payload "isError"
-- is true, and the code of the payload lies in -32099..-32000 or among seven HTTP statuses, or one
-- of its messages, trimmed and in lower case, holds one of the hints.
pub is_mcp_transient_error_iff :
    (h : Heap) (result : Value) → (is_mcp_transient_error h result ≡ true) ↔ IsTransient h result
is_mcp_transient_error_iff h result = (
  sound h result,
  λ (payload, e, b, t). complete h result payload e b (elim t [
    | inl x ↦ inl ((code_is_transient_iff (extract_mcp_error_code h payload)).1 x)
    | inr x ↦ inr ((any_transient_iff (extract_mcp_error_messages h payload)).1 x)
  ]),
)
