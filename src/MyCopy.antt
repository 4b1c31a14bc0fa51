-- ===== src/MyCopy.antt =====
-- SR/TD3/mycopy.c: a file is copied to the standard output.
pub mod Copies
mod Examples
use semestre.Base.{ℕ, zero, suc, Option, none, some, List, [], ◌∷◌, Bytes}
use semestre.Posix.Run.{pure, exit, out_of_fuel, ◌>>=◌, ◌>>◌}
use semestre.Posix.Kernel.{Call, Process, Got, got, failed}
use semestre.Posix.Calls.{send}
use semestre.Posix.Files.{read_only, open_file, read_file, close_file}

-- TAILLE_BUFF and STDOUT.
abbrev pub buffer_size : ℕ
buffer_size = 64

abbrev pub stdout : ℕ
stdout = 1

-- The program has no variables that live through a round.
abbrev pub Copier : Type 0 → Type 0
Copier A = Call (Unit {0}) A

-- `read` of a descriptor that may be -1.
unfoldable pub read_in : Option ℕ → Copier Got
read_in none = pure failed
read_in (some file) = read_file file buffer_size

-- The test of `while` and its body: a size of -1 is true, and a `write` of that size does nothing.
unfoldable pub copy_block : Got → Copier (Unit {0}) → Copier (Unit {0})
copy_block failed rest = rest
copy_block (got []) rest = pure tt
copy_block (got (x ∷ bs)) rest = send stdout (x ∷ bs) >> rest

unfoldable pub copy_loop : ℕ → Option ℕ → Copier (Unit {0})
copy_loop zero file = λ s. out_of_fuel s
copy_loop (suc fuel) file =
    let rest = copy_loop fuel file in read_in file >>= λ block. copy_block block rest

unfoldable pub close_in : Option ℕ → Copier (Unit {0})
close_in none = pure tt
close_in (some file) = close_file file

-- `if(in)`
unfoldable pub copy_opened : ℕ → Option ℕ → Copier (Unit {0})
copy_opened fuel (some zero) = exit
copy_opened fuel file = do copy_loop fuel file; close_in file; exit

-- `main`, with the words behind the program's name.
unfoldable pub mycopy : ℕ → List Bytes → Copier (Unit {0})
mycopy fuel [] = exit
mycopy fuel (path ∷ []) = do file ← open_file read_only path; copy_opened fuel file
mycopy fuel (path ∷ (p ∷ ps)) = exit
