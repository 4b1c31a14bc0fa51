-- ===== src/Posix/Script.antt =====
-- One call at a known head of a script, or at a known file: the result and the state behind it.
use semestre.Posix.Files.{
  read_file, write_file, read_handle, write_handle, put_file, write_at, contents, open_file,
  write_create, file_size, install, size_handle, Mode, opened, full,
}
use semestre.Base.{
  ℕ, ◌≤◌, ◌≡◌, ap, true, List, [], ◌∷◌, arith, leb, Bytes, length, take_all, ◌+◌, some, take, drop,
  suc, refl, Bool, Option, none,
}
use semestre.Posix.Int.{ℤ, Fits, encode_int, store-encode, int_max, pos, decode-encode}
use semestre.Posix.Run.{ok}
use semestre.Posix.Kernel.{
  late, chunk, Arrival, queue, ready, timeout, got, Process, set_socket, select_socket, read_socket,
  Handle, update, Event,
}
use semestre.Posix.Calls.{select, recv, recv_int, add_int}

module _ {G : Type 0} where
  -- The process with `q` left to come on `fd`.
  abbrev pub left : ℕ → List Arrival → Process G → Process G
  left fd q s = record s { os = set_socket s.os fd (queue q) }

  -- The process with one event more.
  abbrev pub logged : Event → Process G → Process G
  logged e s = record s { os = record s.os { log = e ∷ s.os.log } }

  module _ (fd : ℕ) (q : List Arrival) (s : Process G) where
    pub select-chunk :
        (bs : Bytes) → s.os.sockets fd ≡ queue (chunk bs ∷ q) → select fd s ≡ ok ready s
    unfolding select select_socket
    select-chunk bs e = rw e

    pub select-late : s.os.sockets fd ≡ queue (late ∷ q) → select fd s ≡ ok timeout (left fd q s)
    unfolding select select_socket
    select-late e = rw e

    pub recv-chunk :
        (m : ℕ) (bs : Bytes)
        → s.os.sockets fd ≡ queue (chunk bs ∷ q)
        → length bs ≤ m
        → recv fd m s ≡ ok (got bs) (left fd q s)
    unfolding recv read_socket
    recv-chunk m bs e h =
        let whole : leb (length bs) m ≡ true = ground arith in rw (e, whole, take_all m bs h)

    pub recv_int-encode :
        (old z : ℤ)
        → s.os.sockets fd ≡ queue (chunk (encode_int z) ∷ q)
        → Fits z
        → recv_int fd old s ≡ ok z (left fd q s)
    unfolding recv_int
    recv_int-encode old z e fits =
        rw (recv-chunk 4 (encode_int z) e (unfold encode_int in omega arith))
          (ap (λ v. ok v (left fd q s)) (store-encode old z fits))

  pub select-end : (fd : ℕ) (s : Process G) → s.os.sockets fd ≡ queue [] → select fd s ≡ ok ready s
  unfolding select select_socket
  select-end fd s e = rw e

  pub recv-end :
      (fd m : ℕ) (s : Process G) → s.os.sockets fd ≡ queue [] → recv fd m s ≡ ok (got []) s
  unfolding recv read_socket
  recv-end fd m s e = rw e

  -- Files. A read at a known offset, and the handle behind it.
  pub read_file-at :
      (fd m : ℕ) (h : Handle) (s : Process G)
      → s.os.handles fd ≡ some h
      → read_file fd m s
        ≡ ok (got (take m (drop h.offset (contents (s.os.disk h.file))))) (record s {
          os = record s.os {
            handles = update s.os.handles fd (
                some (record h {
                  offset = h.offset + length (take m (drop h.offset (contents (s.os.disk h.file))));
                }));
          };
        })
  unfolding read_file read_handle
  read_file-at fd m h s e = rw e

  pub write_file-at :
      (fd : ℕ) (bs : Bytes) (h : Handle) (s : Process G)
      → s.os.handles fd ≡ some h
      → write_file fd bs s
        ≡ ok tt (record s {
          os = record s.os {
            disk = put_file s.os.disk h.file (write_at (contents (s.os.disk h.file)) h.offset bs);
            handles = update s.os.handles fd (some (record h { offset = h.offset + length bs }));
          };
        })
  unfolding write_file write_handle
  write_file-at fd bs h s e = rw e

  pub add_int-fits :
      (k m : ℕ) (s : Process G) → k + m ≤ int_max → add_int (pos k) m s ≡ ok (pos (k + m)) s
  unfolding add_int
  add_int-fits k m s h = let small : leb (k + m) int_max ≡ true = ground arith in rw small

module _ {G : Type 0} where
  -- The process with the file `f`, which holds `c`, newly open at its start.
  abbrev pub with_open : Bytes → Bytes → Process G → Process G
  with_open f c s = record s {
    os = record s.os {
      disk = put_file s.os.disk f c;
      handles = update s.os.handles s.os.next_handle (some (record { file = f; offset = 0 }));
      next_handle = suc s.os.next_handle;
    };
  }

  pub open_file-opened :
      (m : Mode) (path c : Bytes) (s : Process G)
      → opened m
          (s.os.disk (full s.os path))
          (s.os.system.may_read (full s.os path))
          (s.os.system.may_write (full s.os path))
        ≡ some c
      → open_file m path s ≡ ok (some s.os.next_handle) (with_open (full s.os path) c s)
  unfolding open_file install
  open_file-opened m path c s e = rw e

  pub file_size-at :
      (fd : ℕ) (h : Handle) (c : Bytes) (s : Process G)
      → s.os.handles fd ≡ some h
      → s.os.disk h.file ≡ some c
      → s.os.system.stat_works h.file ≡ true
      → length c ≤ int_max
      → file_size fd s ≡ ok (some (pos (length c))) s
  unfolding file_size size_handle
  file_size-at fd h c s has holds works small =
      rw (has, works, holds) (ap (λ z. ok (some z) s) (decode-encode (pos (length c)) small))

pub opened-create : (o : Option Bytes) (r : Bool) → opened write_create o r true ≡ some (contents o)
unfolding opened
opened-create none r = refl
opened-create (some c) r = refl
