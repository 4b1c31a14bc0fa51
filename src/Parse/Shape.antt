-- ===== src/Parse/Shape.antt =====
-- What the words of a line are, and that they hold all of it but the blanks.
use semestre.Base.{
  ℕ, zero, suc, ◌≤◌, ◌≡◌, refl, ap, true, false, Option, some, List, [], ◌∷◌, ◌++◌, arith,
  if◌then◌else◌, Bytes, length, inl, inr, Bool-cases,
}
use mathlib.Core.Option
use semestre.Parse.{is_blank, is_operator, ends_word, scan_word, split_loop, split_in_words}

abbrev pub Inside : Bytes → Type 0
Inside [] = Unit {0}
Inside (c ∷ cs) = (ends_word c ≡ false) × Inside cs

-- A word is one operator, or begins with a byte that is no blank and no operator and goes on
-- with bytes that do not end it.
abbrev pub IsWord : Bytes → Type 0
IsWord [] = ⊥
IsWord (c ∷ cs) = (is_blank c ≡ false) × (if is_operator c then cs ≡ [] else Inside cs)

abbrev pub AllWords : List Bytes → Type 0
AllWords [] = Unit {0}
AllWords (w ∷ ws) = IsWord w × AllWords ws

abbrev pub flatten : List Bytes → Bytes
flatten [] = []
flatten (w ∷ ws) = w ++ flatten ws

-- The line less its blanks.
abbrev pub squeeze : Bytes → Bytes
squeeze [] = []
squeeze (c ∷ cs) = if is_blank c then squeeze cs else c ∷ squeeze cs

scan_word-Inside : (cs : Bytes) → Inside (scan_word cs).0
unfolding scan_word
scan_word-Inside [] = tt
scan_word-Inside (c ∷ cs) = ground (arith, scan_word-Inside cs)

scan_word-le : (cs : Bytes) → length (scan_word cs).1 ≤ length cs
unfolding scan_word
scan_word-le [] = omega arith
scan_word-le (c ∷ cs) = ground (arith, scan_word-le cs)

scan_word-squeeze : (cs : Bytes) → (scan_word cs).0 ++ squeeze (scan_word cs).1 ≡ squeeze cs
unfolding scan_word
scan_word-squeeze [] = refl
scan_word-squeeze (c ∷ cs) = ground (arith, scan_word-squeeze cs)

-- Where a word may stop: at the end of the line, or in front of a byte that ends words.
abbrev pub Stops : Bytes → Type 0
Stops [] = Unit {0}
Stops (c ∷ cs) = ends_word c ≡ true

-- How the words lie in the line: blanks are left out, an operator stands alone, and a word that
-- begins otherwise goes on as far as it can.
pub data Laid : Bytes → List Bytes → Type 0 where
  at_end : Laid [] []
  behind_blank :
      {c : ℕ} {cs : Bytes} {ws : List Bytes} → is_blank c ≡ true → Laid cs ws → Laid (c ∷ cs) ws
  operator :
      {c : ℕ} {cs : Bytes} {ws : List Bytes}
      → is_blank c ≡ false
      → is_operator c ≡ true
      → Laid cs ws
      → Laid (c ∷ cs) ((c ∷ []) ∷ ws)
  longest :
      {c : ℕ} {cs w rest : Bytes} {ws : List Bytes}
      → is_blank c ≡ false
      → is_operator c ≡ false
      → cs ≡ w ++ rest
      → Inside w
      → Stops rest
      → Laid rest ws
      → Laid (c ∷ cs) ((c ∷ w) ∷ ws)

scan_word-Stops : (cs : Bytes) → Stops (scan_word cs).1
unfolding scan_word
scan_word-Stops [] = tt
scan_word-Stops (c ∷ cs) = elim (Bool-cases (ends_word c)) [
  | inl e ↦ rw e e
  | inr e ↦ rw e (scan_word-Stops cs)
]

scan_word-append : (cs : Bytes) → cs ≡ (scan_word cs).0 ++ (scan_word cs).1
unfolding scan_word
scan_word-append [] = refl
scan_word-append (c ∷ cs) = elim (Bool-cases (ends_word c)) [
  | inl e ↦ rw e refl
  | inr e ↦ rw e (ap (◌∷◌ c) (scan_word-append cs))
]

-- What a run of the loop on `line` gives.
pub record Splits (line : Bytes) (r : Option (List Bytes)) : Type 0 where
  pub words : List Bytes
  pub gives : r ≡ some words
  pub are_words : AllWords words
  pub hold_all : flatten words ≡ squeeze line
  pub laid : Laid line words

module _ (c : ℕ) (cs : Bytes) where
  Splits-blank : {r : Option (List Bytes)} → is_blank c ≡ true → Splits cs r → Splits (c ∷ cs) r
  Splits-blank blank s = record {
    words = s.words;
    gives = s.gives;
    are_words = s.are_words;
    hold_all = rw blank s.hold_all;
    laid = behind_blank blank s.laid;
  }

  Splits-operator :
      {r : Option (List Bytes)}
      → is_blank c ≡ false
      → is_operator c ≡ true
      → Splits cs r
      → Splits (c ∷ cs) (Option.map (◌∷◌ (c ∷ [])) r)
  Splits-operator solid op s = record {
    words = (c ∷ []) ∷ s.words;
    gives = rw s.gives;
    are_words = ((solid, rw op refl), s.are_words);
    hold_all = rw solid (ap (◌∷◌ c) s.hold_all);
    laid = operator solid op s.laid;
  }

  Splits-word :
      {r : Option (List Bytes)}
      → is_blank c ≡ false
      → is_operator c ≡ false
      → Splits (scan_word cs).1 r
      → Splits (c ∷ cs) (Option.map (◌∷◌ (c ∷ (scan_word cs).0)) r)
  Splits-word solid letter s = record {
    words = (c ∷ (scan_word cs).0) ∷ s.words;
    gives = rw s.gives;
    are_words = ((solid, rw letter (scan_word-Inside cs)), s.are_words);
    hold_all = rw (solid, s.hold_all) (ap (◌∷◌ c) (scan_word-squeeze cs));
    laid =
        longest solid letter (scan_word-append cs) (scan_word-Inside cs) (scan_word-Stops cs)
          s.laid;
  }

split_loop-Splits :
    (fuel : ℕ) (line : Bytes) → length line ≤ fuel → Splits line (split_loop fuel line)
unfolding split_loop
split_loop-Splits fuel [] h = record {
  words = [];
  gives = refl;
  are_words = tt;
  hold_all = refl;
  laid = at_end;
}
split_loop-Splits zero (c ∷ cs) h = absurd (omega arith)
split_loop-Splits (suc fuel) (c ∷ cs) h =
    let rest = split_loop-Splits fuel cs (omega arith) in
    let behind = split_loop-Splits fuel (scan_word cs).1 (omega (arith, scan_word-le cs)) in
    elim (Bool-cases (is_blank c)) [
      | inl blank ↦ rw blank (Splits-blank c cs blank rest)
      | inr solid ↦ rw solid (elim (Bool-cases (is_operator c)) [
        | inl op ↦ rw op (Splits-operator c cs solid op rest)
        | inr letter ↦ rw letter (Splits-word c cs solid letter behind)
      ])
    ]

-- `split_in_words` ends on every line. Each word it returns is one operator character, or a run
-- that starts with neither a blank nor an operator and goes on up to the end of the line or the first
-- blank or `<`, `>`, `|`, and no further; and the words one after another are the line less its
-- blanks and tabs.
pub split_in_words-Splits : (line : Bytes) → Splits line (split_in_words line)
unfolding split_in_words
split_in_words-Splits line = split_loop-Splits (length line) line (omega arith)
