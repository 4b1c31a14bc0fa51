-- ===== src/Parse/Examples.antt =====
-- Command lines: tests of the functions, and the theorems at some lines.
use semestre.Base.{◌≡◌, refl, ◌↔◌, some, List, [], ◌∷◌, ◌++◌, Bytes, codes, arith}
use semestre.Parse.{rm, error_cmd, split_in_words, cmd_to_int, no_endofline}
use semestre.Parse.Shape.{Splits, AllWords, split_in_words-Splits}
use semestre.Parse.RoundTrip.{unwords, split_in_words-unwords}
use semestre.Parse.Codes.{Names, cmd_to_int-iff_Names}

abbrev put_line : Bytes
put_line = codes "put  notes.txt>out&"

-- `&` is a word at the start of a word only.
split_put_line :
    split_in_words put_line
    ≡ some (codes "put" ∷ (codes "notes.txt" ∷ (codes ">" ∷ (codes "out&" ∷ []))))
unfolding split_in_words
split_put_line = refl

abbrev rm_words : List Bytes
rm_words = codes "rm" ∷ (codes "-r" ∷ (codes "old" ∷ []))

rm_words-AllWords : AllWords rm_words
rm_words-AllWords = ground arith

no_endofline_cuts : no_endofline (codes "ls") ≡ codes "l"
unfolding no_endofline
no_endofline_cuts = refl

unknown_word : cmd_to_int (codes "getx") ≡ error_cmd
unfolding cmd_to_int
unknown_word = refl

split_in_words-Splits_example : Splits put_line (split_in_words put_line)
split_in_words-Splits_example = split_in_words-Splits put_line

split_in_words-unwords_example :
    split_in_words (no_endofline (unwords rm_words ++ b'\n' ∷ [])) ≡ some rm_words
split_in_words-unwords_example = split_in_words-unwords rm_words rm_words-AllWords

cmd_to_int-iff_Names_example : (cmd_to_int (codes "rm") ≡ rm) ↔ Names (codes "rm") rm
cmd_to_int-iff_Names_example = cmd_to_int-iff_Names (codes "rm") rm (λ e. cc)
