-- ===== src/Exchange/Get.antt =====
-- `get` between a client and a slave.
use semestre.Base.{
  ℕ, suc, ◌-◌, ◌<◌, ◌≤◌, ◌≡◌, ap, ◌∙◌, true, some, List, ◌∷◌, ◌++◌, arith, Bytes, length, drop,
  length-drop, refl,
}
use semestre.Posix.Int.{int_max, encode_int}
use semestre.Posix.Run.{ok}
use semestre.Posix.Kernel.{Arrival, queue}
use semestre.Posix.Files.{full, contents}
use semestre.Posix.Log.{messages}
use semestre.Posix.Strings.{NoNul}
use semestre.Parse.{get}
use semestre.Protocol.{max_line}
use semestre.Protocol.Blocks.{
  blocks, rounds, all_from, oks, length-all_from, joined-all_from, all_from-AllFit, joined,
}
use semestre.Slave.{SlaveState, clientfd}
use semestre.Slave.Session.{session_round}
use semestre.Slave.Session.Get.{Served, get_requests, get_replies, session_round-gets}
use semestre.Client.{ClientState, slave}
use semestre.Client.Commands.{execute}
use semestre.Client.Transfer.Receives.{AllFit-Fills}
use semestre.Client.Gets.{execute-gets}
use semestre.Posix.WriteAt.{write_at-start}

module _ (fuel : ℕ) (name c : Bytes) (args : List Bytes) (q q' : List Arrival) (s : SlaveState)
    (s' : ClientState) (served : Served name c s)
    (writable : s'.os.system.may_write (full s'.os name) ≡ true) (some_bytes : 0 < length c)
    (small : length c ≤ int_max) (c_string : NoNul name) (short : length name < max_line)
    (enough : rounds (length c - 0) < fuel)
    (slave_reads : s.os.sockets clientfd ≡ queue (blocks (get_requests name c) q))
    (client_reads : s'.os.sockets slave ≡ queue (blocks (get_replies c) q')) where
  -- A client asks for a file `c` that is not empty and that the slave can read. Each of the two
  -- programs reads what the other one writes. The slave's round and the client's command return,
  -- the messages are these indeed, the session goes on, and the client's file is `c`, followed by
  -- what the client's old file of that name held from there on.
  pub get-copies :
      (t : SlaveState) × (t' : ClientState) × (session_round fuel s ≡ ok tt t)
      × (execute fuel get (name ∷ args) s' ≡ ok tt t')
      × (messages clientfd t.os.log ≡ messages clientfd s.os.log ++ get_replies c)
      × (messages slave t'.os.log ≡ messages slave s'.os.log ++ get_requests name c)
      × (t.vars.connected ≡ s.vars.connected)
      × (t'.os.disk (full s'.os name)
          ≡ some (c ++ drop (length c) (contents (s'.os.disk (full s'.os name)))))
  get-copies =
      let (t, run, said, on, left) =
        session_round-gets fuel name c q s served c_string short small enough slave_reads in
      let count : length (joined (all_from 0 c)) ≡ length c =
        omega (arith, ap length (joined-all_from 0 c), length-drop 0 c) in
      let (t', run', stored, said', rest) =
        execute-gets fuel (length c) (length c) name args (all_from 0 c) q' s' writable client_reads
          (AllFit-Fills 0 (length c) (all_from 0 c) (all_from-AllFit 0 c) (omega (arith, count)))
          count small some_bytes small (omega (arith, length-all_from 0 c)) in
      let whole : joined (all_from 0 c) ≡ c = joined-all_from 0 c ∙ (unfold drop in refl) in
      (
        t,
        t',
        run,
        run',
        said,
        said'
            ∙ ap (λ m. messages slave s'.os.log ++ (encode_int get ∷ name ∷ oks (suc m)))
                (length-all_from 0 c),
        on,
        stored ∙ ap some (rw whole (write_at-start (contents (s'.os.disk (full s'.os name))) c)),
      )
