-- ===== src/Posix/Log.antt =====
-- The calls that leave the log of events as it is.
use semestre.Base.{
  ℕ, ◌≡◌, refl, Option, none, some, [], ◌∷◌, Bytes, List, if◌then◌else◌, ◌==◌, ◌++◌,
}
use semestre.Posix.Int.{ℤ, pos, negsuc}
use semestre.Posix.Kernel.{
  late, broken, chunk, Socket, shut, queue, Kernel, Handle, select_socket, read_socket, Event,
  wrote, closed, spawned,
}
use semestre.Posix.Files.{install, read_handle, write_handle, seek_handle, moved}

pub select_socket-log : (fd : ℕ) (s : Socket) (k : Kernel) → (select_socket fd s k).1.log ≡ k.log
unfolding select_socket
select_socket-log fd shut k = refl
select_socket-log fd (queue []) k = refl
select_socket-log fd (queue (late ∷ r)) k = refl
select_socket-log fd (queue (broken ∷ r)) k = refl
select_socket-log fd (queue (chunk bs ∷ r)) k = refl

pub read_socket-log : (fd n : ℕ) (s : Socket) (k : Kernel) → (read_socket fd n s k).1.log ≡ k.log
unfolding read_socket
read_socket-log fd n shut k = refl
read_socket-log fd n (queue []) k = refl
read_socket-log fd n (queue (a ∷ q)) k = refl

pub install-log : (f : Bytes) (o : Option Bytes) (k : Kernel) → (install f o k).1.log ≡ k.log
unfolding install
install-log f none k = refl
install-log f (some c) k = refl

pub read_handle-log :
    (fd n : ℕ) (h : Option Handle) (k : Kernel) → (read_handle fd n h k).1.log ≡ k.log
unfolding read_handle
read_handle-log fd n none k = refl
read_handle-log fd n (some h) k = refl

pub write_handle-log :
    (fd : ℕ) (bs : Bytes) (h : Option Handle) (k : Kernel) → (write_handle fd bs h k).log ≡ k.log
unfolding write_handle
write_handle-log fd bs none k = refl
write_handle-log fd bs (some h) k = refl

pub seek_handle-log :
    (fd : ℕ) (z : ℤ) (h : Option Handle) (k : Kernel) → (seek_handle fd z h k).log ≡ k.log
unfolding seek_handle
seek_handle-log fd (pos n) none k = refl
seek_handle-log fd (pos n) (some h) k = refl
seek_handle-log fd (negsuc n) h k = refl

pub moved-log : (d : Option Bytes) (k : Kernel) → (moved d k).1.log ≡ k.log
unfolding moved
moved-log none k = refl
moved-log (some d) k = refl

-- All the bytes written on a descriptor, in order.
unfoldable pub written : ℕ → List Event → Bytes
written fd [] = []
written fd (wrote g bs ∷ l) = if g == fd then written fd l ++ bs else written fd l
written fd (closed g ∷ l) = written fd l
written fd (spawned args ∷ l) = written fd l

-- The writes on a descriptor, one by one, in order.
unfoldable pub messages : ℕ → List Event → List Bytes
messages fd [] = []
messages fd (wrote g bs ∷ l) = if g == fd then messages fd l ++ (bs ∷ []) else messages fd l
messages fd (closed g ∷ l) = messages fd l
messages fd (spawned args ∷ l) = messages fd l
