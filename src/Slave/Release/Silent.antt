-- ===== src/Slave/Release/Silent.antt =====
-- The way out of `case GET` on which the master is told nothing.
use semestre.Base.{◌==◌, ℕ, ◌≡◌, refl, false, List, [], ◌∷◌, ◌++◌, if◌then◌else◌, arith}
use semestre.Posix.Int.{ℤ, Fits, encode_int, eq_ℤ}
use semestre.Posix.Run.{ok}
use semestre.Posix.Kernel.{closed, wrote, update, chunk, Arrival, queue, shut}
use semestre.Posix.Calls.{send, close}
use semestre.Posix.Log.{messages}
use semestre.Posix.Script.{select-chunk, recv_int-encode}
use semestre.Protocol.{ok_code, attente_reponse}
use semestre.Slave.{SlaveState, clientfd}
use semestre.Slave.Commands.{get_bytes}
use semestre.Slave.Release.{releases}

-- The state from which the client's answer is awaited: it refuses.
module _ (fuel file : ℕ) (n z : ℤ) (q : List Arrival) (s : SlaveState)
    (answer : s.os.sockets clientfd ≡ queue (chunk (encode_int z) ∷ q)) (fits : Fits z)
    (refuses : eq_ℤ z ok_code ≡ false) where
  dropped : SlaveState
  dropped = record {
    vars = record s.vars { nb_octets = n; info = z; connected = false };
    os = record s.os {
      sockets = λ j. if j == clientfd then shut else update s.os.sockets clientfd (queue q) j;
      log = closed clientfd ∷ (wrote clientfd (encode_int n) ∷ s.os.log);
    };
  }

  asked : SlaveState
  asked = record {
    vars = record s.vars { nb_octets = n };
    os = record s.os { log = wrote clientfd (encode_int n) ∷ s.os.log };
  }

  get_bytes_silent : get_bytes fuel file n s ≡ ok tt dropped
  unfolding get_bytes attente_reponse send close dropped asked
  get_bytes_silent = rw (
    select-chunk clientfd q asked (encode_int z) answer,
    recv_int-encode clientfd q asked s.vars.info z answer fits,
    refuses,
  )

  -- The session is over, and no code that frees the slave is written to the master.
  pub refused_get-says :
      (t : SlaveState) × (get_bytes fuel file n s ≡ ok tt t)
      × (t.vars.connected ≡ false)
      × (t.os.sockets clientfd ≡ shut)
      × (releases t.os.log ≡ releases s.os.log)
      × (messages clientfd t.os.log ≡ messages clientfd s.os.log ++ (encode_int n ∷ []))
  unfolding dropped messages
  refused_get-says = (dropped, get_bytes_silent, refl, refl, omega arith, refl)
