-- ===== src/FileInfo.antt =====
-- SR/TP3/fileinfo.c: the type and the permissions of a file, from `st_mode`. The constants are
-- POSIX's for the permissions and Linux's for the types; the owner, the size and the times are only
-- printed.
pub mod Rights
mod Examples
use semestre.Base.{ℕ, ◌/◌, ◌%◌, ◌==◌, if◌then◌else◌, List, [], ◌∷◌, Bytes}

-- `info.st_mode & bit`, for a bit by its value.
abbrev pub has_bit : ℕ → ℕ → ℕ
has_bit mode bit = mode / bit % 2

-- `S_ISREG` to `S_ISBLK`: the four bits of `S_IFMT`.
abbrev file_type : ℕ → ℕ
file_type mode = mode / 4096 % 16

-- What is said of the type.
data FileKind : Type 0 where
  regular directory char_device block_device other : FileKind

unfoldable kind_of : ℕ → FileKind
kind_of mode =
    if file_type mode == 8
    then regular
    else if file_type mode == 4
    then directory
    else if file_type mode == 2
    then char_device
    else if file_type mode == 6
    then block_device
    else other

-- One letter, or a dash.
unfoldable pub letter : ℕ → ℕ → ℕ → ℕ
letter mode bit c = if has_bit mode bit == 1 then c else b'-'

-- The nine characters behind "Droits : -", from S_IRUSR to S_IXOTH.
unfoldable pub rights : ℕ → Bytes
rights mode =
    letter mode 256 b'r'
    ∷ letter mode 128 b'w'
    ∷ letter mode 64 b'x'
    ∷ letter mode 32 b'r'
    ∷ letter mode 16 b'w'
    ∷ letter mode 8 b'x'
    ∷ letter mode 4 b'r'
    ∷ letter mode 2 b'w'
    ∷ letter mode 1 b'x'
    ∷ []
