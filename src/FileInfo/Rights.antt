-- ===== src/FileInfo/Rights.antt =====
-- The letters against the bits.
use semestre.Base.{
  ℕ, ◌+◌, ◌*◌, ◌/◌, ◌%◌, ◌≡◌, ◌≢◌, ◌==◌, if◌then◌else◌, refl, [], ◌∷◌, Bytes, arith, Option, some,
  none, codes,
}
use semestre.FileInfo.{has_bit, letter, rights}

-- The bit that `c` stands for where `ls -l` shows `w` or a dash; `none` for any other character.
abbrev pub bit_of : ℕ → ℕ → Option ℕ
bit_of w c = if c == b'-' then some 0 else if c == w then some 1 else none

abbrev pub then_bit : Option ℕ → ℕ → (ℕ → Option ℕ) → Option ℕ
then_bit none m k = none
then_bit (some b) m k = k (m * 2 + b)

-- The mode of such characters, behind the bits of `m`, with the letter that each place may show.
abbrev pub mode_from : ℕ → Bytes → Bytes → Option ℕ
mode_from m [] [] = some m
mode_from m [] (c ∷ cs) = none
mode_from m (w ∷ ws) [] = none
mode_from m (w ∷ ws) (c ∷ cs) = then_bit (bit_of w c) m (λ m'. mode_from m' ws cs)

abbrev pub mode_of : Bytes → Option ℕ
mode_of cs = mode_from 0 (codes "rwxrwxrwx") cs

letter-bit : (mode bit c : ℕ) → c ≢ b'-' → bit_of c (letter mode bit c) ≡ some (has_bit mode bit)
unfolding letter
letter-bit mode bit c ne = ground arith

-- The nine characters are `rwxrwxrwx` with a dash in the place of each permission that is not given,
-- and read that way they give the mode back, less its type and special bits: each of the nine bits
-- has its own place with its letter there.
pub rights-mode_of : (mode : ℕ) → mode_of (rights mode) ≡ some (mode % 512)
unfolding rights
rights-mode_of mode =
    let e1 : mode / 256 % 2 * 2 + mode / 128 % 2 ≡ mode / 128 % 4 = omega arith in
    let e2 : mode / 128 % 4 * 2 + mode / 64 % 2 ≡ mode / 64 % 8 = omega arith in
    let e3 : mode / 64 % 8 * 2 + mode / 32 % 2 ≡ mode / 32 % 16 = omega arith in
    let e4 : mode / 32 % 16 * 2 + mode / 16 % 2 ≡ mode / 16 % 32 = omega arith in
    let e5 : mode / 16 % 32 * 2 + mode / 8 % 2 ≡ mode / 8 % 64 = omega arith in
    let e6 : mode / 8 % 64 * 2 + mode / 4 % 2 ≡ mode / 4 % 128 = omega arith in
    let e7 : mode / 4 % 128 * 2 + mode / 2 % 2 ≡ mode / 2 % 256 = omega arith in
    let e8 : mode / 2 % 256 * 2 + mode / 1 % 2 ≡ mode / 1 % 512 = omega arith in
    let e0 : 0 * 2 + mode / 256 % 2 ≡ mode / 256 % 2 = omega arith in
    let last : mode / 1 ≡ mode = omega arith in
    rw
      (
        letter-bit mode 256 b'r' (omega arith),
        letter-bit mode 128 b'w' (omega arith),
        letter-bit mode 64 b'x' (omega arith),
        letter-bit mode 32 b'r' (omega arith),
        letter-bit mode 16 b'w' (omega arith),
        letter-bit mode 8 b'x' (omega arith),
        letter-bit mode 4 b'r' (omega arith),
        letter-bit mode 2 b'w' (omega arith),
        letter-bit mode 1 b'x' (omega arith),
        e0,
        e1,
        e2,
        e3,
        e4,
        e5,
        e6,
        e7,
        e8,
        last,
      )
      refl
