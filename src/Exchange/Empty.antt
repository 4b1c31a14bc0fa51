-- ===== src/Exchange/Empty.antt =====
-- `get` of an empty file, and the command behind it.
use semestre.Base.{
  ℕ, ◌<◌, ◌≡◌, ◌∙◌, ap, false, List, [], ◌∷◌, ◌++◌, Bytes, length, append_assoc, arith, ◌≤◌,
}
use semestre.Posix.Int.{ℤ, pos, eq_ℤ, Fits, encode_int, int_max}
use semestre.Posix.Run.{ok}
use semestre.Posix.Kernel.{Arrival, queue, shut, Event, wrote}
use semestre.Posix.Log.{messages}
use semestre.Posix.Strings.{NoNul}
use semestre.Parse.{get}
use semestre.Protocol.{max_line, ok_code}
use semestre.Protocol.Blocks.{blocks}
use semestre.Slave.{SlaveState, clientfd}
use semestre.Slave.Session.{session_round}
use semestre.Slave.Session.Get.{Served, session_round-asked, asked_for, asked_for-os}
use semestre.Slave.Release.{releases}
use semestre.Slave.Release.Silent.{refused_get-says}
use semestre.Client.{ClientState, slave}
use semestre.Client.Commands.{execute}
use semestre.Client.Gets.{execute-gets_nothing}

says_ok :
    (l : List Event)
    → messages clientfd (wrote clientfd (encode_int ok_code) ∷ l) ++ (encode_int (pos 0) ∷ [])
      ≡ messages clientfd l ++ (encode_int ok_code ∷ encode_int (pos 0) ∷ [])
unfolding messages
says_ok l = simp append_assoc

tells_nothing : (l : List Event) → releases (wrote clientfd (encode_int ok_code) ∷ l) ≡ releases l
tells_nothing l = omega arith

module _ (fuel : ℕ) (name : Bytes) (args : List Bytes) (z : ℤ) (q q' : List Arrival)
    (s : SlaveState) (s' : ClientState) (served : Served name [] s) (c_string : NoNul name)
    (short : length name < max_line) (fits : Fits z) (other : eq_ℤ z ok_code ≡ false)
    (slave_reads : s.os.sockets clientfd
      ≡ queue (blocks (encode_int get ∷ name ∷ encode_int z ∷ []) q))
    (client_reads : s'.os.sockets slave
      ≡ queue (blocks (encode_int ok_code ∷ encode_int (pos 0) ∷ []) q')) where
  -- A client gets a file of the slave's that is empty and can be read, and then writes the code `z`
  -- of its next command, which is not OK. Each of the two programs reads what the other one writes.
  -- The get returns, no file of the client's is made or changed, and nothing has been written but
  -- the command and the name. The slave takes `z` for the answer to the size: the session is over
  -- and its socket closed, with OK and the size 0 as all that was sent, and the master is not told
  -- that the slave is free.
  pub get-empty :
      (t : SlaveState) × (t' : ClientState) × (session_round fuel s ≡ ok tt t)
      × (execute fuel get (name ∷ args) s' ≡ ok tt t')
      × (t'.os.disk ≡ s'.os.disk)
      × (messages slave t'.os.log ≡ messages slave s'.os.log ++ (encode_int get ∷ name ∷ []))
      × (messages clientfd t.os.log
          ≡ messages clientfd s.os.log ++ (encode_int ok_code ∷ encode_int (pos 0) ∷ []))
      × (t.vars.connected ≡ false)
      × (t.os.sockets clientfd ≡ shut)
      × (releases t.os.log ≡ releases s.os.log)
  get-empty =
      let no_bytes : Bytes = [] in
      let small : length no_bytes ≤ int_max = omega arith in
      let p =
        asked_for fuel name [] (blocks (encode_int z ∷ []) q) s served c_string short small
          slave_reads in
      let (come, log) =
        asked_for-os fuel name [] (blocks (encode_int z ∷ []) q) s served c_string short small
          slave_reads in
      let (t, run, over, closed_now, silent, said) =
        refused_get-says fuel s.os.next_handle (pos 0) z q p come fits other in
      let (t', run', disk, said', rest) = execute-gets_nothing fuel name args q' s' client_reads in
      (
        t,
        t',
        session_round-asked fuel name [] (blocks (encode_int z ∷ []) q) s served c_string short
              small slave_reads
            ∙ run,
        run',
        disk,
        said',
        said ∙ ap (λ l. messages clientfd l ++ (encode_int (pos 0) ∷ [])) log ∙ says_ok s.os.log,
        over,
        closed_now,
        silent ∙ ap releases log ∙ tells_nothing s.os.log,
      )
