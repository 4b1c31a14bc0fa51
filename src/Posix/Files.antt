-- ===== src/Posix/Files.antt =====
-- The calls on files and directories, and the commands run by `fork`, `execvp` and `wait`.
use semestre.Base.{
  ℕ, zero, suc, ◌+◌, ◌-◌, Bool, true, false, Option, none, some, List, [], ◌∷◌, ◌++◌, if◌then◌else◌,
  Bytes, length, take, drop, same_bytes,
}
use semestre.Posix.Int.{ℤ, pos, negsuc, encode_int, decode_int}
use semestre.Posix.Kernel.{
  Got, got, failed, closed, spawned, Disk, Handle, Kernel, Call, sys, update,
}

pub data Mode : Type 0 where
  read_only write_only write_create : Mode

-- The contents that `open` leaves in the file, if it succeeds. Nothing is truncated.
unfoldable pub opened : Mode → Option Bytes → (readable writable : Bool) → Option Bytes
opened read_only (some c) true w = some c
opened read_only (some c) false w = none
opened read_only none r w = none
opened write_only (some c) r true = some c
opened write_only (some c) r false = none
opened write_only none r w = none
opened write_create (some c) r true = some c
opened write_create none r true = some []
opened write_create o r false = none

-- The file's whole path.
abbrev pub full : Kernel → Bytes → Bytes
full k path = k.system.resolve k.cwd path

abbrev pub put_file : Disk → Bytes → Bytes → Disk
put_file d f c g = if same_bytes g f then some c else d g

unfoldable pub install : Bytes → Option Bytes → Kernel → Option ℕ × Kernel
install f none k = (none, k)
install f (some c) k = (
  some k.next_handle,
  record k {
    disk = put_file k.disk f c;
    handles = update k.handles k.next_handle (some (record { file = f; offset = 0 }));
    next_handle = suc k.next_handle;
  },
)

unfoldable pub zeros : ℕ → Bytes
zeros zero = []
zeros (suc n) = 0 ∷ zeros n

-- `bs` written into `c` at an offset; a gap behind the end is filled with zeros.
unfoldable pub write_at : Bytes → ℕ → Bytes → Bytes
unfolding zeros take drop
write_at c n bs = take n c ++ (zeros (n - length c) ++ (bs ++ drop (n + length bs) c))

abbrev pub contents : Option Bytes → Bytes
contents none = []
contents (some c) = c

unfoldable pub read_handle : ℕ → ℕ → Option Handle → Kernel → Got × Kernel
read_handle fd n none k = (failed, k)
read_handle fd n (some h) k =
    let bs = take n (drop h.offset (contents (k.disk h.file))) in
    (
      got bs,
      record k {
        handles = update k.handles fd (some (record h { offset = h.offset + length bs }));
      },
    )

unfoldable pub write_handle : ℕ → Bytes → Option Handle → Kernel → Kernel
unfolding write_at
write_handle fd bs none k = k
write_handle fd bs (some h) k = record k {
  disk = put_file k.disk h.file (write_at (contents (k.disk h.file)) h.offset bs);
  handles = update k.handles fd (some (record h { offset = h.offset + length bs }));
}

unfoldable pub seek_handle : ℕ → ℤ → Option Handle → Kernel → Kernel
seek_handle fd (pos n) (some h) k = record k {
  handles = update k.handles fd (some (record h { offset = n }));
}
seek_handle fd (pos n) none k = k
seek_handle fd (negsuc n) h k = k

unfoldable pub size_handle : Option Handle → Kernel → Option ℤ
size_handle none k = none
size_handle (some h) k =
    if k.system.stat_works h.file
    then some (decode_int (encode_int (pos (length (contents (k.disk h.file))))))
    else none

unfoldable pub moved : Option Bytes → Kernel → Bool × Kernel
moved none k = (false, k)
moved (some d) k = (true, record k { cwd = d })

module _ {G : Type 0} where
  -- `open(path, …)`: the descriptor, or `none` for -1.
  unfoldable pub open_file : Mode → Bytes → Call G (Option ℕ)
  unfolding opened install
  open_file m path = sys λ k.
      let f = full k path in
      install f (opened m (k.disk f) (k.system.may_read f) (k.system.may_write f)) k

  -- `read(file, buffer, n)`.
  unfoldable pub read_file : ℕ → ℕ → Call G Got
  unfolding read_handle
  read_file fd n = sys λ k. read_handle fd n (k.handles fd) k

  -- `write(file, buffer, n)`.
  unfoldable pub write_file : ℕ → Bytes → Call G (Unit {0})
  unfolding write_handle
  write_file fd bs = sys λ k. (tt, write_handle fd bs (k.handles fd) k)

  -- `lseek(file, n, SEEK_SET)`.
  unfoldable pub seek_file : ℕ → ℤ → Call G (Unit {0})
  unfolding seek_handle
  seek_file fd n = sys λ k. (tt, seek_handle fd n (k.handles fd) k)

  unfoldable pub close_file : ℕ → Call G (Unit {0})
  close_file fd =
      sys λ k. (tt, record k { handles = update k.handles fd none; log = closed fd ∷ k.log })

  -- `fstat`: the size as the `int` it is kept in, or `none` if the call fails.
  unfoldable pub file_size : ℕ → Call G (Option ℤ)
  unfolding size_handle
  file_size fd = sys λ k. (size_handle (k.handles fd) k, k)

  -- `chdir(path) == 0`.
  unfoldable pub chdir : Bytes → Call G Bool
  unfolding moved
  chdir path = sys λ k. moved (k.system.enter k.cwd path) k

  -- A child that runs `args`, and the wait for its end.
  unfoldable pub run_and_wait : List Bytes → Call G (Unit {0})
  run_and_wait args = sys λ k.
      (tt, record k { disk = k.system.run_command k.cwd args k.disk; log = spawned args ∷ k.log })

  -- `opendir` of the current directory and all of `readdir`.
  unfoldable pub list_directory : Call G (Option (List Bytes))
  list_directory = sys λ k. (k.system.names k.cwd k.disk, k)
