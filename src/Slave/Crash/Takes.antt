-- ===== src/Slave/Crash/Takes.antt =====
-- What the slave is told by the master of a client that comes back.
use semestre.Base.{◌≤◌, ◌≡◌, refl, List, [], ◌∷◌, ◌++◌, Bytes, length, drop, append_assoc}
use semestre.Posix.Int.{ℤ, Fits, encode_int}
use semestre.Posix.Run.{ok, ◌>>◌}
use semestre.Posix.Kernel.{Arrival, queue, wrote}
use semestre.Posix.Calls.{send, c_str}
use semestre.Posix.Log.{messages}
use semestre.Posix.Script.{left, logged, select-chunk, recv-chunk, recv_int-encode}
use semestre.Posix.Strings.{NoNul, c_str-append_nul}
use semestre.Protocol.{ok_code, max_line, envoi_info, attente_reponse}
use semestre.Protocol.Blocks.{blocks, oks}
use semestre.Slave.{SlaveState, Slave, master}
use semestre.Slave.Crash.{reception_info_crash_from_master}

-- The answer to the master's code, and the call behind it.
unfoldable pub takes_over : Slave (Unit {0})
takes_over = envoi_info master ok_code >> reception_info_crash_from_master

module _ (name rest : Bytes) (n : ℤ) (q : List Arrival) (s : SlaveState) (c_string : NoNul name)
    (short : length name ≤ max_line) (fits : Fits n)
    (ended : drop (length name) s.vars.filename ≡ 0 ∷ rest)
    (come : s.os.sockets master ≡ queue (blocks (name ∷ encode_int n ∷ []) q)) where
  welcomed : SlaveState
  welcomed = logged (wrote master (encode_int ok_code)) s

  named : SlaveState
  unfolding welcomed
  named =
      let s' = left master (blocks (encode_int n ∷ []) q) welcomed in
      logged (wrote master (encode_int ok_code))
        (record s' { vars = record s'.vars { filename = name ++ (0 ∷ rest) } })

  taken : SlaveState
  unfolding named
  taken = let s' = left master q named in record s' { vars = record s'.vars { nb_crash = n } }

  pub takes_over-takes :
      (t : SlaveState) × (takes_over s ≡ ok tt t)
      × (messages master t.os.log ≡ messages master s.os.log ++ oks 2)
      × (c_str t.vars.filename ≡ name)
      × (t.vars.nb_crash ≡ n)
      × (t.os.sockets master ≡ queue q)
  unfolding takes_over reception_info_crash_from_master attente_reponse envoi_info send messages
      taken
  takes_over-takes = (
    taken,
    rw
        (
          select-chunk master _ welcomed name come,
          recv-chunk master _ welcomed max_line name come short,
          ended,
          select-chunk master _ named (encode_int n) refl,
          recv_int-encode master _ named s.vars.nb_crash n refl fits,
        )
        refl,
    simp append_assoc,
    c_str-append_nul name rest c_string,
    refl,
    refl,
  )
