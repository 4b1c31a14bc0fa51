-- ===== src/Slave/Session/Eof.antt =====
-- A client that goes away without a word: its socket is at the end of the stream.
use semestre.Base.{ℕ, zero, suc, ◌≡◌, refl, true, []}
use semestre.Posix.Run.{ok, out_of_fuel}
use semestre.Posix.Kernel.{queue}
use semestre.Posix.Script.{select-end, recv-end}
use semestre.Protocol.{attente_reponse}
use semestre.Slave.{SlaveState, clientfd}
use semestre.Slave.Session.{on_command, session_round, session}

module _ (fuel : ℕ) (s : SlaveState) (on : s.vars.connected ≡ true)
    (gone : s.os.sockets clientfd ≡ queue []) where
  session_round_end : session_round fuel s ≡ ok tt s
  unfolding session_round on_command attente_reponse
  session_round_end = rw (select-end clientfd s gone, recv-end clientfd 4 s gone)

  -- Once the client has closed its end without EXIT, the session never ends: whatever the number of
  -- rounds, the loop is still in the same state, connected, with nothing sent to the master.
  pub session_spins : (rounds : ℕ) → session rounds fuel s ≡ out_of_fuel s
  unfolding session
  session_spins zero = refl
  session_spins (suc rounds) = simp on (rw session_round_end (session_spins rounds))
