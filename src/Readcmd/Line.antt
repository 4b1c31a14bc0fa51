-- ===== src/Readcmd/Line.antt =====
-- `readline` on a line of any length.
use semestre.Base.{
  lt_or_le, ℕ, zero, suc, ◌+◌, ◌-◌, ◌*◌, ◌/◌, ◌≤◌, ◌<◌, ◌≡◌, ◌≢◌, refl, ap, sym, ◌∙◌, true, false,
  Option, some, [], ◌∷◌, ◌++◌, arith, Bytes, length, take, drop, leb, inl, append_assoc, inr,
  length-take, length-drop, length-append, take-append-drop,
}
use semestre.Posix.Int.{int_max}
use semestre.Posix.Run.{ok}
use semestre.Posix.Calls.{c_str}
use semestre.Parse.RoundTrip.{no_endofline-newline}
use semestre.Readcmd.{Cmdline, Reader, line_part, fgets, ends_line, readline_loop, readline}

-- The bytes of a line: no NUL and no end of line.
abbrev pub Inline : Bytes → Type 0
Inline [] = Unit {0}
Inline (c ∷ cs) = (c ≢ 0) × (c ≢ b'\n') × Inline cs

append-Inline : (a b : Bytes) → Inline a → Inline b → Inline (a ++ b)
append-Inline [] b h k = k
append-Inline (c ∷ a) b h k = (h.0, h.1, append-Inline a b h.2 k)

take-Inline : (n : ℕ) (a : Bytes) → Inline a → Inline (take n a)
unfolding take
take-Inline zero a h = tt
take-Inline (suc n) [] h = tt
take-Inline (suc n) (c ∷ a) h = (h.0, h.1, take-Inline n a h.2)

drop-Inline : (n : ℕ) (a : Bytes) → Inline a → Inline (drop n a)
unfolding drop
drop-Inline zero a h = h
drop-Inline (suc n) [] h = h
drop-Inline (suc n) (c ∷ a) h = drop-Inline n a h.2

c_str-Inline : (a b : Bytes) → Inline a → c_str (a ++ b) ≡ a ++ c_str b
unfolding c_str
c_str-Inline [] b h = refl
c_str-Inline (c ∷ a) b h = ground (arith, c_str-Inline a b h.2)

c_str-whole : (a : Bytes) → Inline a → c_str a ≡ a
unfolding c_str
c_str-whole [] h = refl
c_str-whole (c ∷ a) h = ground (arith, c_str-whole a h.2)

ends_line-Inline : (a : Bytes) → Inline a → ends_line a ≡ false
unfolding ends_line
ends_line-Inline [] h = refl
ends_line-Inline (c ∷ []) h = ground (arith, h.1)
ends_line-Inline (c ∷ (d ∷ a)) h = ends_line-Inline (d ∷ a) h.2

ends_line-newline : (a : Bytes) → ends_line (a ++ b'\n' ∷ []) ≡ true
unfolding ends_line
ends_line-newline [] = refl
ends_line-newline (c ∷ []) = refl
ends_line-newline (c ∷ (d ∷ a)) = ends_line-newline (d ∷ a)

line_part-end :
    (n : ℕ) (t rest : Bytes)
    → Inline t
    → length t < n
    → line_part n (t ++ b'\n' ∷ rest) ≡ (t ++ b'\n' ∷ [], rest)
unfolding line_part
line_part-end zero t rest h lt = absurd (omega arith)
line_part-end (suc n) [] rest h lt = refl
line_part-end (suc n) (c ∷ t) rest h lt =
    ground (arith, line_part-end n t rest h.2 (omega arith), h.1)

line_part-cut :
    (n : ℕ) (t rest : Bytes)
    → Inline t
    → n ≤ length t
    → line_part n (t ++ b'\n' ∷ rest) ≡ (take n t, drop n t ++ b'\n' ∷ rest)
unfolding line_part take drop
line_part-cut zero [] rest h le = refl
line_part-cut zero (c ∷ t) rest h le = refl
line_part-cut (suc n) [] rest h le = absurd (omega arith)
line_part-cut (suc n) (c ∷ t) rest h le =
    ground (arith, line_part-cut n t rest h.2 (omega arith), h.1)

-- The reader before and behind a part of the input.
abbrev reader : Bytes → Option Cmdline → Reader
reader s old = record { stdin = s; static_cmdline = old }

fgets-part :
    (size : ℕ) (t rest : Bytes) (old : Option Cmdline)
    → fgets size (reader (t ++ b'\n' ∷ rest) old)
      ≡ ok
          (some (line_part (size - 1) (t ++ b'\n' ∷ rest)).0)
          (reader (line_part (size - 1) (t ++ b'\n' ∷ rest)).1 old)
unfolding fgets
fgets-part size [] rest old = refl
fgets-part size (c ∷ t) rest old = refl

-- The whole line is in the buffer.
readline_loop-ended :
    (fuel : ℕ) (line : Bytes) (buf_len : ℕ) (s : Reader)
    → Inline line
    → 0 < fuel
    → readline_loop fuel (line ++ b'\n' ∷ []) buf_len s ≡ ok line s
unfolding readline_loop
readline_loop-ended zero line buf_len s h lt = absurd (omega arith)
readline_loop-ended (suc fuel) line buf_len s h lt =
    let whole : c_str (line ++ b'\n' ∷ []) ≡ line ++ b'\n' ∷ [] =
      c_str-Inline line (b'\n' ∷ []) h ∙ (unfold c_str in refl) in
    rw (whole, ends_line-newline line, no_endofline-newline line) refl

-- The buffer is full of the first part of the line, `d`, and `t` is still to come.
readline_loop-goes :
    (fuel : ℕ) (d t rest : Bytes) (old : Option Cmdline)
    → Inline d
    → Inline t
    → length d + length t + 1 < int_max / 2
    → length t + 1 < fuel
    → readline_loop fuel d (length d + 1) (reader (t ++ b'\n' ∷ rest) old)
      ≡ ok (d ++ t) (reader rest old)
unfolding readline_loop
readline_loop-goes zero d t rest old h k small lt = absurd (omega arith)
readline_loop-goes (suc fuel) d t rest old h k small lt =
    let size = length d + 1 in
    let whole : c_str d ≡ d = c_str-whole d h in
    let n : size * 2 - length d - 1 ≡ size = omega arith in
    let fits : leb (int_max / 2) size ≡ false = ground arith in
    rw (whole, ends_line-Inline d h, fits, fgets-part (size * 2 - length d) t rest old, n, whole)
      (elim (lt_or_le (length t) size) [
        | inl ends ↦
            rw (line_part-end size t rest k ends, sym (append_assoc d t (b'\n' ∷ [])))
              (readline_loop-ended fuel (d ++ t) (size * 2) (reader rest old)
                (append-Inline d t h k) (omega arith))
        | inr goes ↦
            let count = length-take size t in
            let count' = length-drop size t in
            let full : length (d ++ take size t) + 1 ≡ size * 2 =
              omega (arith, length-append d (take size t)) in
            let all : (d ++ take size t) ++ drop size t ≡ d ++ t =
              append_assoc d _ _ ∙ ap (◌++◌ d) (take-append-drop size t) in
            rw (line_part-cut size t rest k goes, sym full, sym all)
              (readline_loop-goes fuel (d ++ take size t) (drop size t) rest old
                (append-Inline d _ h (take-Inline size t k)) (drop-Inline size t k) (omega arith)
                (omega arith))
      ])

-- `readline` gives the first line of the input without its end, and leaves what is behind it, when
-- the line is shorter than INT_MAX/2 - 1 bytes and has no NUL, given two rounds more than it has
-- bytes.
pub readline-first_line :
    (fuel : ℕ) (line rest : Bytes) (old : Option Cmdline)
    → Inline line
    → length line + 1 < int_max / 2
    → length line + 1 < fuel
    → readline fuel (record { stdin = line ++ b'\n' ∷ rest; static_cmdline = old })
      ≡ ok (some line) (record { stdin = rest; static_cmdline = old })
unfolding readline
readline-first_line fuel line rest old h small enough =
    rw (fgets-part 16 line rest old) (elim (lt_or_le (length line) 15) [
      | inl ends ↦
          rw
            (
              line_part-end 15 line rest h ends,
              readline_loop-ended fuel line 16 (reader rest old) h (omega arith),
            )
            refl
      | inr goes ↦
          let count = length-take 15 line in
          let count' = length-drop 15 line in
          let full : 16 ≡ length (take 15 line) + 1 = omega arith in
          rw
            (
              line_part-cut 15 line rest h goes,
              full,
              readline_loop-goes fuel (take 15 line) (drop 15 line) rest old (take-Inline 15 line h)
                  (drop-Inline 15 line h) (omega arith) (omega arith),
              take-append-drop 15 line,
            )
            refl
    ])
