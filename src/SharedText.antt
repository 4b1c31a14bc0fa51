-- ===== src/SharedText.antt =====
-- SR/TP5/shm_server.c and shm_client.c: the server writes the alphabet into a shared segment, the
-- client prints what it finds there up to a NUL. The two run in any order, one access at a time,
-- behind the `shmat` of both.
pub mod Segment
pub mod Letters
pub mod Missed
mod Examples
use semestre.Base.{ℕ, ◌+◌, Bool, true, false, List, [], ◌∷◌, ◌++◌, Bytes, ltb, ◌==◌, if◌then◌else◌}

-- SHMSZ
abbrev pub shmsz : ℕ
shmsz = 27

-- In the loop `for (c = 'a'; c <= 'z'; c++)` with `s` at `shm + i`, behind it, and at its end.
pub data Server : Type 0 where
  writes : ℕ → Server
  checks over : Server

-- In front of the test of the loop with `s` at `shm + j`, in front of its `putchar`, behind the loop,
-- at the end, and at an access outside the segment.
pub data Client : Type 0 where
  reads prints : ℕ → Client
  marks gone outside : Client

pub record State : Type 0 where
  pub shm : ℕ → ℕ
  pub server : Server
  pub client : Client
  pub output : Bytes

-- `shm` is what the segment holds: zeros when it is new, else what an earlier run has left.
unfoldable pub attached : (ℕ → ℕ) → State
attached shm = record { shm = shm; server = writes 0; client = reads 0; output = [] }

abbrev pub store : (ℕ → ℕ) → ℕ → ℕ → ℕ → ℕ
store shm i c = λ k. if k == i then c else shm k

-- `*s++ = c`, and `*s = '\0'` behind `z`.
unfoldable pub write_next : ℕ → State → State
write_next i s =
    if ltb i 26
    then record s { shm = store s.shm i (97 + i); server = writes (i + 1) }
    else record s { shm = store s.shm i 0; server = checks }

-- `while (*shm != '*')`
unfoldable pub check_first : State → State
check_first s = if s.shm 0 == 42 then record s { server = over } else s

unfoldable pub server_step : Server → State → State
unfolding write_next check_first
server_step (writes i) s = write_next i s
server_step checks s = check_first s
server_step over s = s

-- `*s != '\0'`, and the end of line behind the loop.
unfoldable pub read_next : ℕ → State → State
read_next j s =
    if ltb j shmsz
    then if s.shm j == 0
      then record s { client = marks; output = s.output ++ (10 ∷ []) }
      else record s { client = prints j }
    else record s { client = outside }

-- `putchar(*s)`, which reads `*s` again, and `s++`.
unfoldable pub print_next : ℕ → State → State
print_next j s =
    if ltb j shmsz
    then record s { client = reads (j + 1); output = s.output ++ (s.shm j ∷ []) }
    else record s { client = outside }

unfoldable pub client_step : Client → State → State
unfolding read_next print_next
client_step (reads j) s = read_next j s
client_step (prints j) s = print_next j s
client_step marks s = record s { shm = store s.shm 0 42; client = gone }
client_step gone s = s
client_step outside s = s

pub data Turn : Type 0 where
  server_acts client_acts : Turn

unfoldable pub step : Turn → State → State
unfolding server_step client_step
step server_acts s = server_step s.server s
step client_acts s = client_step s.client s

unfoldable pub run : List Turn → State → State
unfolding step
run [] s = s
run (t ∷ ts) s = run ts (step t s)
