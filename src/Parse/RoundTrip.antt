-- ===== src/Parse/RoundTrip.antt =====
-- Words written with a blank behind each one are read back as they were.
use mathlib.Core.Option
use semestre.Base.{
  ℕ, zero, suc, ◌≤◌, ◌≡◌, refl, ap, ◌∙◌, some, List, [], ◌∷◌, ◌++◌, arith, Bytes, length, inl, inr,
  Bool-cases, length-append,
}
use semestre.Parse.{is_operator, scan_word, split_loop, split_in_words, no_endofline}
use semestre.Parse.Shape.{Inside, IsWord, AllWords}

-- The words as a user types them.
abbrev pub unwords : List Bytes → Bytes
unwords [] = []
unwords (w ∷ ws) = w ++ (b' ' ∷ unwords ws)

scan_word_stops : (w rest : Bytes) → Inside w → scan_word (w ++ (b' ' ∷ rest)) ≡ (w, b' ' ∷ rest)
unfolding scan_word
scan_word_stops [] rest h = refl
scan_word_stops (c ∷ cs) rest h = ground (arith, scan_word_stops cs rest)

module _ (fuel c : ℕ) (cs rest : Bytes) (w : IsWord (c ∷ cs)) where
  -- The word and the blank behind it take two rounds.
  split_loop-word :
      split_loop (suc (suc fuel)) (c ∷ (cs ++ (b' ' ∷ rest)))
      ≡ Option.map (◌∷◌ (c ∷ cs)) (split_loop fuel rest)
  unfolding split_loop
  split_loop-word = elim (Bool-cases (is_operator c)) [
    | inl op ↦ rw (w.0, op) (let e : cs ≡ [] = rw op at w.1 in rw e refl)
    | inr letter ↦
        rw (w.0, letter) (let e = scan_word_stops cs rest (rw letter at w.1) in rw e refl)
  ]

split_loop-unwords :
    (fuel : ℕ) (ws : List Bytes)
    → AllWords ws
    → length (unwords ws) ≤ fuel
    → split_loop fuel (unwords ws) ≡ some ws
unfolding split_loop
split_loop-unwords fuel [] a h = refl
split_loop-unwords fuel ([] ∷ ws) a h = absurd a.0
split_loop-unwords zero ((c ∷ cs) ∷ ws) a h = absurd (omega arith)
split_loop-unwords (suc zero) ((c ∷ cs) ∷ ws) a h =
    absurd (omega (arith, length-append cs (b' ' ∷ unwords ws)))
split_loop-unwords (suc (suc fuel)) ((c ∷ cs) ∷ ws) a h =
    split_loop-word fuel c cs (unwords ws) a.0
    ∙ ap (Option.map (◌∷◌ (c ∷ cs)))
        (split_loop-unwords fuel ws a.1 (omega (arith, length-append cs (b' ' ∷ unwords ws))))

pub no_endofline-newline : (line : Bytes) → no_endofline (line ++ b'\n' ∷ []) ≡ line
unfolding no_endofline
no_endofline-newline [] = refl
no_endofline-newline (c ∷ []) = refl
no_endofline-newline (c ∷ (d ∷ cs)) = ap (◌∷◌ c) (no_endofline-newline (d ∷ cs))

pub split_in_words-text : (ws : List Bytes) → AllWords ws → split_in_words (unwords ws) ≡ some ws
unfolding split_in_words
split_in_words-text ws a = split_loop-unwords (length (unwords ws)) ws a (omega arith)

-- What the client does with a typed line: words that are of the grammar, each followed by a blank,
-- and an end of line give those words back, in order.
pub split_in_words-unwords :
    (ws : List Bytes)
    → AllWords ws
    → split_in_words (no_endofline (unwords ws ++ b'\n' ∷ [])) ≡ some ws
split_in_words-unwords ws a = rw (no_endofline-newline (unwords ws)) (split_in_words-text ws a)
