-- ===== src/Kube/Hash.antt =====
-- pkg/kube/hash.go: the short hash of a spec, kept as an annotation.
use mcp_adapter_engram.Base.{
  ℕ, ◌/◌, ◌%◌, String, ◌<>◌, Option, none, some, List, [], ◌∷◌, zero, suc, get_elem?,
}

-- encoding/json and crypto/sha256, the latter by its bytes.
pub record Digest (V : Type 0) : Type 0 where
  pub marshal : V → Option String
  pub sum256 : String → List ℕ

abbrev take_bytes : ℕ → List ℕ → List ℕ
take_bytes zero bytes = []
take_bytes (suc n) [] = []
take_bytes (suc n) (b ∷ bytes) = b ∷ take_bytes n bytes

abbrev hex_digits : List String
hex_digits =
    "0" ∷ "1" ∷ "2" ∷ "3" ∷ "4" ∷ "5" ∷ "6" ∷ "7" ∷ "8" ∷ "9" ∷ "a" ∷ "b" ∷ "c" ∷ "d" ∷ "e" ∷ "f"
    ∷ []

abbrev or_blank : Option String → String
or_blank none = ""
or_blank (some s) = s

abbrev hex_digit : ℕ → String
hex_digit n = or_blank (get_elem? hex_digits n)

-- `hex.EncodeToString`
unfoldable pub encode_hex : List ℕ → String
encode_hex [] = ""
encode_hex (b ∷ bytes) = hex_digit (b / 16) <> (hex_digit (b % 16) <> encode_hex bytes)

-- A spec that cannot be encoded is hashed as the empty text.
unfoldable pub spec_hash : {V : Type 0} → Digest V → V → String
spec_hash d v = encode_hex (take_bytes 8 (d.sum256 (or_blank (d.marshal v))))
