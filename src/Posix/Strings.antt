-- ===== src/Posix/Strings.antt =====
-- C strings in arrays.
use semestre.Base.{ℕ, zero, suc, ◌<◌, ◌≡◌, ◌≢◌, refl, [], ◌∷◌, ◌++◌, arith, Bytes, length, set}
use semestre.Posix.Calls.{c_str}

-- The bytes of a C string.
abbrev pub NoNul : Bytes → Type 0
NoNul [] = Unit {0}
NoNul (x ∷ xs) = (x ≢ 0) × NoNul xs

-- A NUL behind the string, and another one put further on.
pub c_str-set_behind :
    (name rest : Bytes) (i : ℕ)
    → NoNul name
    → length name < i
    → c_str (set (name ++ (0 ∷ rest)) i 0) ≡ name
unfolding c_str
c_str-set_behind [] rest zero h lt = absurd (omega arith)
c_str-set_behind [] rest (suc i) h lt = refl
c_str-set_behind (x ∷ name) rest zero h lt = absurd (omega arith)
c_str-set_behind (x ∷ name) rest (suc i) h lt =
    ground (arith, c_str-set_behind name rest i h.1 (omega arith))

pub c_str-append_nul : (name rest : Bytes) → NoNul name → c_str (name ++ (0 ∷ rest)) ≡ name
unfolding c_str
c_str-append_nul [] rest h = refl
c_str-append_nul (x ∷ name) rest h = ground (arith, c_str-append_nul name rest h.1)
