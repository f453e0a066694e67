-- ===== src/Adapter/Path/Parsing.antt =====
-- What `parsePath` of adapter/pagination.go accepts and builds.
use Prim.Native.Char.{Char, code}
use Prim.Native.String.{[], ◌∷◌}
use mathlib.Core.List.{[], ◌∷◌}
use mcp_adapter_engram.Base.{
  ℕ, zero, suc, String, ◌≡◌, ◌≢◌, refl, true, some, List, arith, Option-cases, Bool-cases, inl, inr,
  ok, err, Result, Result-cases, All, All-append, ℤ, eof, ◌≤◌, ◌==◌,
}
use mcp_adapter_engram.Text.{is_empty, cut, split, atoi}
use mcp_adapter_engram.Adapter.Path.{
  PathToken, key_token, index_token, cut_at, parse_path, parse_segment, parse_segments, prepend,
  size, take_token,
}

-- The tokens that `parsePath` builds: a key that is not empty, or an index.
pub data IsSimple : PathToken → Type 0 where
  by_key : (c : Char) (s : String) → IsSimple (key_token (c ∷ s))
  by_index : (i : ℤ) → IsSimple (index_token i)

-- What holds of all tokens of a successful parse.
abbrev AllSimple : Result (List PathToken) → Type 0
AllSimple (ok toks) = All IsSimple toks
AllSimple (err e) = Unit

AllSimple-prepend :
    (t : PathToken) (r : Result (List PathToken))
    → IsSimple t
    → AllSimple r
    → AllSimple (prepend t r)
AllSimple-prepend t (ok ts) s h = (s, h)
AllSimple-prepend t (err e) s h = tt

take_token-IsSimple :
    (path : String) (c : Char) (s : String) {t : PathToken} {rest : String}
    → take_token path c s ≡ ok (t, rest)
    → IsSimple t
unfolding take_token
take_token-IsSimple path c s {t} {rest} e = elim (Bool-cases (code c == b'[')) [
  | inl b ↦ elim (Option-cases (cut b']' s)) [
    | inl n ↦ absurd (ground arith)
    | inr ((inner, after), p) ↦ elim (Option-cases (atoi inner)) [
      | inl n ↦ absurd (ground arith)
      | inr (i, q) ↦ let same : t ≡ index_token i = ground arith in rw same (by_index i)
    ]
  ]
  | inr b ↦ elim (Option-cases (cut_at b'[' s)) [
    | inl n ↦ let same : t ≡ key_token (c ∷ s) = ground arith in rw same (by_key c s)
    | inr ((before, after), p) ↦
        let same : t ≡ key_token (c ∷ before) = ground arith in rw same (by_key c before)
  ]
]

parse_segment-AllSimple : (fuel : ℕ) (path seg : String) → AllSimple (parse_segment fuel path seg)
unfolding parse_segment
parse_segment-AllSimple fuel path [] = tt
parse_segment-AllSimple zero path (c ∷ s) = tt
parse_segment-AllSimple (suc fuel) path (c ∷ s) = elim (Result-cases (take_token path c s)) [
  | inr (x, e) ↦ rw (e, parse_segment) tt
  | inl ((t, rest), e) ↦
      rw (e, parse_segment)
        (AllSimple-prepend t _ (take_token-IsSimple path c s e)
          (parse_segment-AllSimple fuel path rest))
]

parse_segments-AllSimple :
    (path : String) (segs : List String) → AllSimple (parse_segments path segs)
unfolding parse_segments
parse_segments-AllSimple path [] = tt
parse_segments-AllSimple path (seg ∷ segs) =
    elim (Result-cases (parse_segment (size seg) path seg)) [
      | inr (x, e) ↦ rw e tt
      | inl (ts, e) ↦ elim (Result-cases (parse_segments path segs)) [
        | inr (x, e') ↦ rw (e, e') tt
        | inl (us, e') ↦
            rw (e, e')
              (All-append IsSimple ts us (rw e at (parse_segment-AllSimple (size seg) path seg))
                (rw e' at (parse_segments-AllSimple path segs)))
      ]
    ]

-- Every token of a parsed path is a key that is not empty or an index, never both and never
-- neither.
pub parse_path-IsSimple :
    (path : String) {toks : List PathToken} → parse_path path ≡ ok toks → All IsSimple toks
unfolding parse_path
parse_path-IsSimple path e = rw e at (parse_segments-AllSimple path (split b'.' path))

pub parse_path-empty : (path : String) → is_empty path ≡ true → parse_path path ≡ ok []
unfolding parse_path parse_segments parse_segment split size
parse_path-empty [] e = refl
parse_path-empty (c ∷ s) e = cc

size-cut :
    (sep : ℕ) (s : String) {before after : String}
    → cut sep s ≡ some (before, after)
    → size after ≤ size s
unfolding cut size
size-cut sep [] e = cc
size-cut sep (c ∷ s) e = elim (Bool-cases (code c == sep)) [
  | inl b ↦ ground arith
  | inr b ↦ elim (Option-cases (cut sep s)) [
    | inl n ↦ absurd (ground arith)
    | inr ((before, after), p) ↦ ground (arith, size-cut sep s p)
  ]
]

size-cut_at :
    (sep : ℕ) (s : String) {before from : String}
    → cut_at sep s ≡ some (before, from)
    → size from ≤ size s
unfolding cut_at size
size-cut_at sep [] e = cc
size-cut_at sep (c ∷ s) e = elim (Bool-cases (code c == sep)) [
  | inl b ↦ ground arith
  | inr b ↦ elim (Option-cases (cut_at sep s)) [
    | inl n ↦ absurd (ground arith)
    | inr ((before, after), p) ↦ ground (arith, size-cut_at sep s p)
  ]
]

-- A round takes at least one character.
size-take_token :
    (path : String) (c : Char) (s : String) {t : PathToken} {rest : String}
    → take_token path c s ≡ ok (t, rest)
    → size rest ≤ size s
unfolding take_token
size-take_token path c s {t} {rest} e = elim (Bool-cases (code c == b'[')) [
  | inl b ↦ elim (Option-cases (cut b']' s)) [
    | inl n ↦ absurd (ground arith)
    | inr ((inner, after), p) ↦ elim (Option-cases (atoi inner)) [
      | inl n ↦ absurd (ground arith)
      | inr (i, q) ↦ let same : rest ≡ after = ground arith in rw same (size-cut b']' s p)
    ]
  ]
  | inr b ↦ elim (Option-cases (cut_at b'[' s)) [
    | inl n ↦ let same : rest ≡ [] = ground arith in rw same (unfold size in omega arith)
    | inr ((before, after), p) ↦
        let same : rest ≡ after = ground arith in rw same (size-cut_at b'[' s p)
  ]
]

take_token-ne-eof : (path : String) (c : Char) (s : String) → take_token path c s ≢ err eof
unfolding take_token
take_token-ne-eof path c s = ground arith

prepend-eof : (t : PathToken) (r : Result (List PathToken)) → prepend t r ≡ err eof → r ≡ err eof
prepend-eof t (ok ts) e = cc
prepend-eof t (err x) e = cc

-- The size of the segment is fuel enough: the loop never runs out.
parse_segment-ne-eof :
    (fuel : ℕ) (path seg : String) → size seg ≤ fuel → parse_segment fuel path seg ≢ err eof
unfolding parse_segment size
parse_segment-ne-eof fuel path [] le = cc
parse_segment-ne-eof zero path (c ∷ s) le = absurd (omega arith)
parse_segment-ne-eof (suc fuel) path (c ∷ s) le = elim (Result-cases (take_token path c s)) [
  | inr (x, e) ↦ ground (arith, take_token-ne-eof path c s)
  | inl ((t, rest), e) ↦
      rw (e, parse_segment)
        (λ p.
          parse_segment-ne-eof fuel path rest (omega (arith, size-take_token path c s e))
            (prepend-eof t _ p))
]

parse_segments-ne-eof : (path : String) (segs : List String) → parse_segments path segs ≢ err eof
unfolding parse_segments
parse_segments-ne-eof path [] = cc
parse_segments-ne-eof path (seg ∷ segs) =
    ground (
      arith,
      parse_segment-ne-eof (size seg) path seg (omega arith),
      parse_segments-ne-eof path segs,
    )

-- A parse never runs out of fuel: whatever the text, the loop over a segment ends within as many
-- rounds as the segment has characters.
pub parse_path-ne-eof : (path : String) → parse_path path ≢ err eof
unfolding parse_path
parse_path-ne-eof path = parse_segments-ne-eof path (split b'.' path)
