-- ===== src/Protocol/Orders.antt =====
-- The commands that the client sends with one path and the slave carries out without an answer.
use semestre.Base.{List, [], ◌∷◌, Bytes, codes, Option, none, some}
use semestre.Posix.Int.{ℤ, encode_int}
use semestre.Posix.Kernel.{System, Disk}
use semestre.Parse.{mkdir, rm, rmr, cd}

pub data Order : Type 0 where
  makes removes removes_all enters : Bytes → Order

abbrev pub path_of : Order → Bytes
path_of (makes path) = path
path_of (removes path) = path
path_of (removes_all path) = path
path_of (enters path) = path

-- As the user types it.
abbrev pub typed : Order → List Bytes
typed (makes path) = codes "mkdir" ∷ path ∷ []
typed (removes path) = codes "rm" ∷ path ∷ []
typed (removes_all path) = codes "rm" ∷ codes "-r" ∷ path ∷ []
typed (enters path) = codes "cd" ∷ path ∷ []

abbrev pub code_of : Order → ℤ
code_of (makes path) = mkdir
code_of (removes path) = rm
code_of (removes_all path) = rmr
code_of (enters path) = cd

-- What the client writes.
abbrev pub order_requests : Order → List Bytes
order_requests o = encode_int (code_of o) ∷ path_of o ∷ []

-- The disk and the directory of the slave behind it.
abbrev pub disk_after : Order → System → Bytes → Disk → Disk
disk_after (makes path) y cwd d = y.run_command cwd (codes "mkdir" ∷ path ∷ []) d
disk_after (removes path) y cwd d = y.run_command cwd (codes "rm" ∷ path ∷ []) d
disk_after (removes_all path) y cwd d = y.run_command cwd (codes "rm" ∷ codes "-r" ∷ path ∷ []) d
disk_after (enters path) y cwd d = d

abbrev pub entered : Option Bytes → Bytes → Bytes
entered none cwd = cwd
entered (some d) cwd = d

abbrev pub cwd_after : Order → System → Bytes → Bytes
cwd_after (makes path) y cwd = cwd
cwd_after (removes path) y cwd = cwd
cwd_after (removes_all path) y cwd = cwd
cwd_after (enters path) y cwd = entered (y.enter cwd path) cwd
