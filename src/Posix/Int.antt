-- ===== src/Posix/Int.antt =====
-- `int`: 32 bits, two's complement, little-endian in memory. `negsuc n` is -(n + 1).
use semestre.Base.{
  ℕ, ◌+◌, ◌-◌, ◌*◌, ◌/◌, ◌%◌, ◌≤◌, ◌<◌, ◌≡◌, ap, ◌∙◌, Bool, true, false, [], ◌∷◌, ◌++◌, arith, ltb,
  leb, ◌==◌, if◌then◌else◌, Bytes, length, drop,
}

pub data ℤ : Type 0 where
  pos : ℕ → ℤ
  negsuc : ℕ → ℤ

abbrev pub eq_ℤ : ℤ → ℤ → Bool
eq_ℤ (pos a) (pos b) = a == b
eq_ℤ (pos a) (negsuc b) = false
eq_ℤ (negsuc a) (pos b) = false
eq_ℤ (negsuc a) (negsuc b) = a == b

abbrev pub ltb_ℤ : ℤ → ℤ → Bool
ltb_ℤ (pos a) (pos b) = ltb a b
ltb_ℤ (pos a) (negsuc b) = false
ltb_ℤ (negsuc a) (pos b) = true
ltb_ℤ (negsuc a) (negsuc b) = ltb b a

-- z + n and z - n for a count n.
abbrev pub add_count : ℤ → ℕ → ℤ
add_count (pos a) n = pos (a + n)
add_count (negsuc a) n = if ltb a n then pos (n - a - 1) else negsuc (a - n)

abbrev pub sub_count : ℤ → ℕ → ℤ
sub_count (pos a) n = if leb n a then pos (a - n) else negsuc (n - a - 1)
sub_count (negsuc a) n = negsuc (a + n)

abbrev pub int_max : ℕ
int_max = 2147483647

-- The values of an `int`.
abbrev pub in_range : ℤ → Bool
in_range (pos n) = leb n int_max
in_range (negsuc n) = leb n int_max

-- The bit pattern of the low 32 bits.
abbrev pub pattern_of : ℤ → ℕ
pattern_of (pos n) = n % 4294967296
pattern_of (negsuc n) = 4294967295 - n % 4294967296

abbrev pub of_pattern : ℕ → ℤ
of_pattern u = if ltb u 2147483648 then pos u else negsuc (4294967295 - u)

unfoldable pub encode_int : ℤ → Bytes
encode_int z =
    let u = pattern_of z in u % 256 ∷ u / 256 % 256 ∷ u / 65536 % 256 ∷ u / 16777216 % 256 ∷ []

unfoldable pub decode_int : Bytes → ℤ
decode_int (a ∷ b ∷ c ∷ d ∷ rest) = of_pattern (a + b * 256 + c * 65536 + d * 16777216)
decode_int _ = pos 0

-- `read(fd, &v, sizeof(int))` with `bs` arriving: a short read keeps the last bytes of `v`.
unfoldable pub store_int : ℤ → Bytes → ℤ
unfolding encode_int decode_int
store_int old bs = decode_int (bs ++ drop (length bs) (encode_int old))

-- A number that fits an `int`.
abbrev pub Fits : ℤ → Type 0
Fits (pos n) = n ≤ int_max
Fits (negsuc n) = n ≤ int_max

bytes_of_pattern :
    (u : ℕ)
    → u < 4294967296
    → u % 256 + u / 256 % 256 * 256 + u / 65536 % 256 * 65536 + u / 16777216 % 256 * 16777216 ≡ u
bytes_of_pattern u h = omega arith

of_pattern-pattern_of : (z : ℤ) → Fits z → of_pattern (pattern_of z) ≡ z
of_pattern-pattern_of (pos n) h = ground arith
of_pattern-pattern_of (negsuc n) h = ground arith

pattern_of-lt : (z : ℤ) → pattern_of z < 4294967296
pattern_of-lt (pos n) = omega arith
pattern_of-lt (negsuc n) = omega arith

pub decode-encode : (z : ℤ) → Fits z → decode_int (encode_int z) ≡ z
unfolding decode_int encode_int
decode-encode z h =
    ap of_pattern (bytes_of_pattern (pattern_of z) (pattern_of-lt z)) ∙ of_pattern-pattern_of z h

pub store-encode : (old z : ℤ) → Fits z → store_int old (encode_int z) ≡ z
unfolding store_int
store-encode old z h = decode-encode z h
