-- ===== src/Posix/Calls.antt =====
-- The calls on sockets, buffers and `int` counters.
use semestre.Base.{
  ℕ, zero, suc, ◌+◌, Bool, true, false, [], ◌∷◌, ◌++◌, ltb, if◌then◌else◌, Bytes, ◌==◌, drop,
  length,
}
use semestre.Posix.Int.{ℤ, store_int, in_range, add_count, sub_count}
use semestre.Posix.Run.{ok, pure, crash, ◌>>=◌}
use semestre.Posix.Kernel.{
  shut, Wait, ready, timeout, error, Got, got, failed, Event, wrote, closed, Call, sys,
  select_socket, read_socket,
}

abbrev pub into_int : ℤ → Got → ℤ
into_int old (got bs) = store_int old bs
into_int old failed = old

module _ {G : Type 0} where
  -- `select` on `fd` alone.
  unfoldable pub select : ℕ → Call G Wait
  unfolding select_socket
  select fd = sys λ k. select_socket fd (k.sockets fd) k

  -- `read(fd, buffer, n)` on a socket.
  unfoldable pub recv : ℕ → ℕ → Call G Got
  unfolding read_socket
  recv fd n = sys λ k. read_socket fd n (k.sockets fd) k

  -- `read(fd, &v, sizeof(int))`, where `old` is what `v` held.
  unfoldable pub recv_int : ℕ → ℤ → Call G ℤ
  recv_int fd old = do g ← recv fd 4; pure (into_int old g)

  abbrev pub record_event : Event → Call G (Unit {0})
  record_event e p = ok tt (record p { os = record p.os { log = e ∷ p.os.log } })

  -- `write(fd, bytes, length)` on a socket; the whole of it is sent.
  unfoldable pub send : ℕ → Bytes → Call G (Unit {0})
  send fd bs = record_event (wrote fd bs)

  -- `close(fd)` of a socket.
  unfoldable pub close : ℕ → Call G (Unit {0})
  close fd p = ok tt (record p {
    os = record p.os {
      sockets = λ j. if j == fd then shut else p.os.sockets j;
      log = closed fd ∷ p.os.log;
    };
  })

-- `if (attente_reponse(…))` takes an error for an answer; `> 0` does not.
abbrev pub nonzero : Wait → Bool
nonzero ready = true
nonzero timeout = false
nonzero error = true

abbrev pub positive : Wait → Bool
positive ready = true
positive timeout = false
positive error = false

-- Buffers. An array of `n` bytes is the list of its first bytes, with zeros behind them.
unfoldable pub fill : ℕ → Bytes → Bytes
fill zero b = []
fill (suc n) [] = 0 ∷ fill n []
fill (suc n) (x ∷ b) = x ∷ fill n b

-- The string in an array: its bytes before the first NUL.
unfoldable pub c_str : Bytes → Bytes
c_str [] = []
c_str (x ∷ b) = if x == 0 then [] else x ∷ c_str b

-- `read` into an array that holds `old`, with no NUL put behind what arrives.
abbrev pub over : Bytes → Got → Bytes
over old (got bs) = bs ++ drop (length bs) old
over old failed = old

-- `buffer[n] = '\0'` behind the `n` bytes that arrived: outside the array if `n` is its size or -1.
unfoldable pub ended : {G : Type 0} → ℕ → Bytes → Got → Call G Bytes
ended size old (got bs) =
    if ltb (length bs) size then pure (bs ++ (0 ∷ drop (length bs + 1) old)) else crash
ended size old failed = crash

-- `v += n` on an `int`: overflow is a fault.
unfoldable pub add_int : {G : Type 0} → ℤ → ℕ → Call G ℤ
add_int z n = if in_range (add_count z n) then pure (add_count z n) else crash

unfoldable pub sub_int : {G : Type 0} → ℤ → ℕ → Call G ℤ
sub_int z n = if in_range (sub_count z n) then pure (sub_count z n) else crash
