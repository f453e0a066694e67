-- ===== src/Text.antt =====
-- What the adapter uses of Go's `strings` and `strconv`, over the code points of a text. Every
-- separator that the adapter looks for is ASCII, so a search by code point finds what Go's search
-- by byte finds.
use Prim.Native.Char.{Char, code}
use Prim.Native.String.{[], ◌∷◌}
use mcp_adapter_engram.Base.{
  ℕ, ◌+◌, ◌-◌, ◌*◌, ◌^◌, String, Bool, true, false, ◌&&◌, ◌||◌, Option, none, some, List, leb, ◌==◌,
  if◌then◌else◌, ℤ, pos, neg,
}
use mathlib.Core.List.{[], ◌∷◌}

-- The test `s == ""`.
abbrev pub is_empty : String → Bool
is_empty [] = true
is_empty (c ∷ s) = false

-- `unicode.IsSpace`
unfoldable pub is_space : ℕ → Bool
is_space c =
    c == 0x20
    || (leb 0x09 c && leb c 0x0d)
    || c == 0x85
    || c == 0xa0
    || c == 0x1680
    || (leb 0x2000 c && leb c 0x200a)
    || c == 0x2028
    || c == 0x2029
    || c == 0x202f
    || c == 0x205f
    || c == 0x3000

-- `strings.TrimLeftFunc`
unfoldable pub trim_left_by : (ℕ → Bool) → String → String
trim_left_by p [] = []
trim_left_by p (c ∷ s) = if p (code c) then trim_left_by p s else c ∷ s

abbrev keep_right : Bool → Char → String → String
keep_right true c [] = []
keep_right true c (d ∷ s) = c ∷ d ∷ s
keep_right false c s = c ∷ s

-- `strings.TrimRightFunc`
unfoldable pub trim_right_by : (ℕ → Bool) → String → String
trim_right_by p [] = []
trim_right_by p (c ∷ s) = keep_right (p (code c)) c (trim_right_by p s)

-- `strings.TrimSpace`
unfoldable pub trim_space : String → String
unfolding is_space trim_left_by trim_right_by
trim_space s = trim_right_by is_space (trim_left_by is_space s)

-- `strings.CutPrefix`, with `none` for `ok == false`; `strings.HasPrefix` is its test.
unfoldable pub cut_prefix : String → String → Option String
cut_prefix s [] = some s
cut_prefix [] (d ∷ p) = none
cut_prefix (c ∷ s) (d ∷ p) = let rest = cut_prefix s p in if code c == code d then rest else none

unfoldable pub has_prefix : String → String → Bool
unfolding cut_prefix
has_prefix s p = elim (cut_prefix s p) [ none ↦ false | some _ ↦ true ]

abbrev before_cut : Char → Option (String × String) → Option (String × String)
before_cut c none = none
before_cut c (some (before, after)) = some (c ∷ before, after)

-- `strings.Cut` at the first occurrence of one ASCII character.
unfoldable pub cut : ℕ → String → Option (String × String)
cut sep [] = none
cut sep (c ∷ s) = if code c == sep then some ([], s) else before_cut c (cut sep s)

abbrev onto_first : Char → List String → List String
onto_first c [] = (c ∷ []) ∷ []
onto_first c (part ∷ parts) = (c ∷ part) ∷ parts

-- `strings.Split` at every occurrence of one ASCII character.
unfoldable pub split : ℕ → String → List String
split sep [] = [] ∷ []
split sep (c ∷ s) = if code c == sep then [] ∷ split sep s else onto_first c (split sep s)

-- `unicode.ToLower`. Of the code points beyond ASCII only two have a lower case in ASCII: K
-- (U+212A, the Kelvin sign) and İ (U+0130). The others are left as they are: the adapter compares
-- the result with ASCII texts alone, and those cannot tell.
unfoldable pub to_lower_code : ℕ → ℕ
to_lower_code c =
    if leb b'A' c && leb c b'Z'
    then c + 32
    else if c == 0x212a
    then b'k'
    else if c == 0x130
    then b'i'
    else c

unfoldable pub codes : String → List ℕ
codes [] = []
codes (c ∷ s) = code c ∷ codes s

-- The code points of `strings.ToLower(s)`.
unfoldable pub to_lower : String → List ℕ
unfolding to_lower_code
to_lower [] = []
to_lower (c ∷ s) = to_lower_code (code c) ∷ to_lower s

unfoldable pub codes_prefix : List ℕ → List ℕ → Bool
codes_prefix s [] = true
codes_prefix [] (d ∷ p) = false
codes_prefix (c ∷ s) (d ∷ p) = c == d && codes_prefix s p

-- `strings.Contains(s, t)`
unfoldable pub contains : List ℕ → List ℕ → Bool
unfolding codes_prefix
contains [] t = codes_prefix [] t
contains (c ∷ s) t = codes_prefix (c ∷ s) t || contains s t

unfoldable pub codes_eq : List ℕ → List ℕ → Bool
codes_eq [] [] = true
codes_eq (c ∷ s) (d ∷ t) = c == d && codes_eq s t
codes_eq _ _ = false

-- `strings.ToLower(s) == t` for a text t in lower-case ASCII.
unfoldable pub lower_eq : String → String → Bool
unfolding to_lower codes codes_eq
lower_eq s t = codes_eq (to_lower s) (codes t)

-- The digits of `strconv.Atoi`, at least one.
unfoldable pub digits : ℕ → String → Option ℕ
digits acc [] = some acc
digits acc (c ∷ s) =
    let rest = digits (acc * 10 + (code c - b'0')) s in
    if leb b'0' (code c) && leb (code c) b'9' then rest else none

unfoldable pub unsigned : String → Option ℕ
unfolding digits
unsigned [] = none
unsigned (c ∷ s) = digits 0 (c ∷ s)

abbrev in_range : ℕ → (ℕ → ℤ) → Option ℕ → Option ℤ
in_range most sign none = none
in_range most sign (some n) = if leb n most then some (sign n) else none

-- `strconv.Atoi`, with `none` for its two errors (syntax and range of a 64-bit `int`).
unfoldable pub atoi : String → Option ℤ
unfolding unsigned
atoi [] = none
atoi (c ∷ s) =
    if code c == b'-'
    then in_range (2 ^ 63) neg (unsigned s)
    else if code c == b'+'
    then in_range (2 ^ 63 - 1) pos (unsigned s)
    else in_range (2 ^ 63 - 1) pos (unsigned (c ∷ s))
