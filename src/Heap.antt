-- ===== src/Heap.antt =====
-- Go's `any` values as `encoding/json` builds them. Maps and slices are objects of a heap: two
-- values may share one, and the adapter writes through such shares (adapter/normalize.go stores a
-- parsed payload in the result it came from, and adapter/pagination.go then writes to it).
pub mod Laws
use mcp_adapter_engram.Base.{
  ℕ, ◌*◌, ◌/◌, ◌^◌, ◌+◌, ◌-◌, String, Bool, true, false, Option, none, some, List, [], ◌++◌, length,
  set, get_elem?, Map, ℤ, pos, negsuc, leb, if◌then◌else◌,
}

-- A finite float: ± mantissa * 2 ^ exponent. JSON has no NaN and no infinity.
pub record Float : Type 0 where
  pub is_negative : Bool
  pub mantissa : ℕ
  pub exponent : ℤ

pub data Number : Type 0 where
  int int32 int64 : ℤ → Number
  float32 float64 : Float → Number
  json_number : String → Number

-- `list` and `obj` hold the address of a slice's elements and of a map's entries.
pub data Value : Type 0 where
  nil : Value
  bool : Bool → Value
  num : Number → Value
  str : String → Value
  list obj : ℕ → Value

pub data Object : Type 0 where
  elems : List Value → Object
  entries : Map Value → Object

abbrev pub Heap : Type 0
Heap = List Object

-- Freshly built data: a value and its new objects, given the first free address.
abbrev pub Decoded : Type 0
Decoded = ℕ → Value × List Object

unfoldable pub alloc : Decoded → Heap → Value × Heap
alloc d h = let (v, fresh) = d (length h) in (v, h ++ fresh)

abbrev entries_of : Option Object → Option (Map Value)
entries_of (some (entries m)) = some m
entries_of _ = none

abbrev elems_of : Option Object → Option (List Value)
elems_of (some (elems xs)) = some xs
elems_of _ = none

-- `m, ok := v.(map[string]any)`
unfoldable pub as_map : Heap → Value → Option (Map Value)
as_map h (obj a) = entries_of (get_elem? h a)
as_map h _ = none

-- `xs, ok := v.([]any)`
unfoldable pub as_list : Heap → Value → Option (List Value)
as_list h (list a) = elems_of (get_elem? h a)
as_list h _ = none

-- `s, ok := v.(string)`
unfoldable pub as_string : Value → Option String
as_string (str s) = some s
as_string _ = none

-- `b, _ := v.(bool)`, whose b is false where v is no bool
unfoldable pub as_bool : Value → Bool
as_bool (bool b) = b
as_bool _ = false

-- `m[k]` where `m` may lack `k`: the value of a missing key is nil.
abbrev pub or_nil : Option Value → Value
or_nil none = nil
or_nil (some v) = v

abbrev truncated : ℕ → ℤ → ℕ
truncated m (pos e) = m * 2 ^ e
truncated m (negsuc e) = m / 2 ^ (e + 1)

-- `int(f)`: towards zero. Out of the range of `int` Go leaves the result to the machine; it is
-- -2^63 on amd64.
unfoldable pub float_to_int : Float → ℤ
float_to_int f =
    let n = truncated f.mantissa f.exponent in
    if f.is_negative
    then if leb n (2 ^ 63) then (if leb n 0 then pos 0 else negsuc (n - 1)) else negsuc (2 ^ 63 - 1)
    else if leb n (2 ^ 63 - 1)
    then pos n
    else negsuc (2 ^ 63 - 1)
