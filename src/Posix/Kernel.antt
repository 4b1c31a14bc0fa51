-- ===== src/Posix/Kernel.antt =====
-- Sockets, files, directories and processes, as far as the programs call them. What arrives on a
-- socket is a script, so every theorem ranges over all peers; what the file system and the commands
-- it runs do is a record of functions, so every theorem ranges over those too.
use semestre.Base.{
  ℕ, Bool, Option, List, [], ◌∷◌, leb, ◌==◌, if◌then◌else◌, Bytes, length, take, drop, ◌≡◌, arith,
}
use semestre.Posix.Run.{Prog, ok}

-- What a socket delivers next: nothing before the timeout, an error, or some bytes.
pub data Arrival : Type 0 where
  late broken : Arrival
  chunk : Bytes → Arrival

-- The end of a queue is the end of the stream: the peer has closed.
pub data Socket : Type 0 where
  shut : Socket
  queue : List Arrival → Socket

-- The results of `select` on one descriptor: 1, 0 and -1.
pub data Wait : Type 0 where
  ready timeout error : Wait

-- The results of `read`: the bytes, none of them at the end of the stream; or -1.
pub data Got : Type 0 where
  got : Bytes → Got
  failed : Got

pub data Event : Type 0 where
  wrote : ℕ → Bytes → Event
  closed : ℕ → Event
  spawned : List Bytes → Event

abbrev pub Disk : Type 0
Disk = Bytes → Option Bytes

-- The parts of the system that are fixed while a program runs. A file is named by its whole path,
-- which `resolve` finds from the working directory and a path; `enter` is `chdir`, and
-- `names` is what a directory holds, `none` when it cannot be opened.
pub record System : Type 0 where
  pub resolve : Bytes → Bytes → Bytes
  pub may_read : Bytes → Bool
  pub may_write : Bytes → Bool
  pub stat_works : Bytes → Bool
  pub enter : Bytes → Bytes → Option Bytes
  pub names : Bytes → Disk → Option (List Bytes)
  pub run_command : Bytes → List Bytes → Disk → Disk

pub record Handle : Type 0 where
  pub file : Bytes
  pub offset : ℕ

-- `log` has the latest event first.
pub record Kernel : Type 0 where
  pub system : System
  pub sockets : ℕ → Socket
  pub disk : Disk
  pub handles : ℕ → Option Handle
  pub next_handle : ℕ
  pub cwd : Bytes
  pub log : List Event

pub record Process (G : Type 0) : Type 0 where
  pub vars : G
  pub os : Kernel

abbrev pub Call : Type 0 → Type 0 → Type 0
Call G A = Prog (Process G) A

abbrev pub update {ℓ} : {A : Type ℓ} → (ℕ → A) → ℕ → A → ℕ → A
update f k v = λ j. if j == k then v else f j

pub update_self {ℓ} : {A : Type ℓ} (f : ℕ → A) (k : ℕ) (v : A) → update f k v k ≡ v
update_self f k v = ground arith

-- Sockets.

-- A blocking `read` sits out what is late; what it does not take stays for the next one.
unfoldable pub read_next : ℕ → List Arrival → Got × List Arrival
read_next n [] = (got [], [])
read_next n (late ∷ r) = read_next n r
read_next n (broken ∷ r) = (failed, r)
read_next n (chunk bs ∷ r) =
    (got (take n bs), if leb (length bs) n then r else chunk (drop n bs) ∷ r)

abbrev pub set_socket : Kernel → ℕ → Socket → Kernel
set_socket k fd s = record k { sockets = update k.sockets fd s }

-- What is late or broken shows once.
unfoldable pub select_socket : ℕ → Socket → Kernel → Wait × Kernel
select_socket fd shut k = (error, k)
select_socket fd (queue []) k = (ready, k)
select_socket fd (queue (late ∷ r)) k = (timeout, set_socket k fd (queue r))
select_socket fd (queue (broken ∷ r)) k = (error, set_socket k fd (queue r))
select_socket fd (queue (chunk bs ∷ r)) k = (ready, k)

unfoldable pub read_socket : ℕ → ℕ → Socket → Kernel → Got × Kernel
unfolding read_next
read_socket fd n shut k = (failed, k)
read_socket fd n (queue []) k = (got [], k)
read_socket fd n (queue (a ∷ q)) k =
    let (g, r) = read_next n (a ∷ q) in (g, set_socket k fd (queue r))

abbrev pub sys : {G A : Type 0} → (Kernel → A × Kernel) → Call G A
sys f p = let (a, k) = f p.os in ok a (record p { os = k })
