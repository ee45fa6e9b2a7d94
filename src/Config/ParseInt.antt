-- ===== src/Config/ParseInt.antt =====
-- strconv.ParseInt in base 10 and 64 bits, as internal/config calls it, on the bytes of a text.
use Prim.Native.Char.{code}
use tracker.Base.{
  ℕ, ◌+◌, ◌-◌, ◌*◌, ◌^◌, Bool, true, false, ◌&&◌, not, String, List, [], ◌∷◌, ltb, leb, ◌==◌,
  nat_eq, if◌then◌else◌, ℤ, pos, sub_ℕ,
}

abbrev pub codes : String → List ℕ
codes String.[] = []
codes (String.◌∷◌ c s) = code c ∷ codes s

-- A value, or one of the two errors.
pub data Parsed : Type 0 where
  parsed : ℤ → Parsed
  syntax out_of_range : Parsed

abbrev pub is_digit : ℕ → Bool
is_digit c = leb b'0' c && leb c b'9'

-- What ParseUint's loop returns; the magnitude stays below 2 ^ 64.
pub data Magnitude : Type 0 where
  magnitude : ℕ → Magnitude
  bad_syntax too_large : Magnitude

-- The loop of ParseUint: it stops at the first byte that is no digit or makes the value too large.
unfoldable pub digits : ℕ → List ℕ → Magnitude
digits n [] = magnitude n
digits n (c ∷ cs) =
    let rest = digits (n * 10 + (c - b'0')) cs in
    if not (is_digit c)
    then bad_syntax
    else if leb (2 ^ 64) (n * 10 + (c - b'0'))
    then too_large
    else rest

unfoldable pub parse_uint : List ℕ → Magnitude
parse_uint [] = bad_syntax
parse_uint (c ∷ cs) = digits 0 (c ∷ cs)

-- The sign is put back, and the signed range tested.
unfoldable pub with_sign : Bool → Magnitude → Parsed
with_sign negative bad_syntax = syntax
with_sign negative too_large = out_of_range
with_sign false (magnitude n) = if leb (2 ^ 63) n then out_of_range else parsed (pos n)
with_sign true (magnitude n) = if ltb (2 ^ 63) n then out_of_range else parsed (sub_ℕ 0 n)

unfoldable pub parse_bytes : List ℕ → Parsed
parse_bytes [] = syntax
parse_bytes (c ∷ cs) =
    if c == b'+'
    then with_sign false (parse_uint cs)
    else if c == b'-'
    then with_sign true (parse_uint cs)
    else with_sign false (parse_uint (c ∷ cs))

unfoldable pub parse_int : String → Parsed
unfolding parse_bytes
parse_int s = parse_bytes (codes s)
