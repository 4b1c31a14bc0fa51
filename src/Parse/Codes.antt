-- ===== src/Parse/Codes.antt =====
-- The command words and their codes.
use semestre.Base.{
  ◌≡◌, refl, sym, ◌∙◌, ◌↔◌, ◌≢◌, inl, inr, Bool, ◌||◌, if◌then◌else◌, Bytes, codes, same_bytes,
  same_bytes_eq, Bool-cases,
}
use semestre.Posix.Int.{ℤ}
use semestre.Parse.{get, exit_cmd, ls, pwd, host, cd, rm, mkdir, put, error_cmd, cmd_to_int}

-- The manual: a word and the command that it stands for.
pub data Names : Bytes → ℤ → Type 0 where
  get_word : Names (codes "get") get
  exit_word : Names (codes "exit") exit_cmd
  quit_word : Names (codes "quit") exit_cmd
  bye_word : Names (codes "bye") exit_cmd
  ls_word : Names (codes "ls") ls
  pwd_word : Names (codes "pwd") pwd
  host_word : Names (codes "host") host
  cd_word : Names (codes "cd") cd
  rm_word : Names (codes "rm") rm
  mkdir_word : Names (codes "mkdir") mkdir
  put_word : Names (codes "put") put

code_of_Names : {w : Bytes} {z : ℤ} → Names w z → cmd_to_int w ≡ z
unfolding cmd_to_int
code_of_Names get_word = refl
code_of_Names exit_word = refl
code_of_Names quit_word = refl
code_of_Names bye_word = refl
code_of_Names ls_word = refl
code_of_Names pwd_word = refl
code_of_Names host_word = refl
code_of_Names cd_word = refl
code_of_Names rm_word = refl
code_of_Names mkdir_word = refl
code_of_Names put_word = refl

abbrev Known : Bytes → ℤ → Type 0
Known w z = z ≢ error_cmd → Names w z

module _ (w : Bytes) where
  Known-if :
      (v : Bytes) (z r : ℤ) → Names v z → Known w r → Known w (if same_bytes w v then z else r)
  Known-if v z r named later = elim (Bool-cases (same_bytes w v)) [
    | inl same ↦ rw same (λ _. rw (same_bytes_eq w v same) named)
    | inr other ↦ rw other later
  ]

  Known-if_or :
      (u : Bytes) (z r : ℤ) (b : Bool)
      → Names u z
      → Known w (if b then z else r)
      → Known w (if same_bytes w u || b then z else r)
  Known-if_or u z r b named later = elim (Bool-cases (same_bytes w u)) [
    | inl same ↦ rw same (λ _. rw (same_bytes_eq w u same) named)
    | inr other ↦ rw other later
  ]

  Known-cmd_to_int : Known w (cmd_to_int w)
  unfolding cmd_to_int
  Known-cmd_to_int = Known-if _ _ _ get_word (
      Known-if_or _ _ _ _ exit_word (
        Known-if_or _ _ _ _ quit_word (
          Known-if _ _ _ bye_word (
            Known-if _ _ _ ls_word (
              Known-if _ _ _ pwd_word (
                Known-if _ _ _ host_word (
                  Known-if _ _ _ cd_word (
                    Known-if _ _ _ rm_word (
                      Known-if _ _ _ mkdir_word
                        (Known-if _ _ _ put_word (λ h. absurd (h refl))))))))))))

-- A word that is in the manual has the code given there; and if a word has a code other than
-- `ERROR`, the manual gives it that code.
pub cmd_to_int-iff_Names : (w : Bytes) (z : ℤ) → z ≢ error_cmd → (cmd_to_int w ≡ z) ↔ Names w z
cmd_to_int-iff_Names w z h =
    ((λ e. rw e at (Known-cmd_to_int w (λ bad. h (sym e ∙ bad)))), code_of_Names)
