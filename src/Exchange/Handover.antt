-- ===== src/Exchange/Handover.antt =====
-- The master hands a cut transfer to the slave of a client that has come back.
use semestre.Base.{
  ℕ, ◌+◌, ◌<◌, ◌≤◌, ◌≡◌, true, List, [], ◌∷◌, ◌++◌, Bytes, length, drop, same_bytes,
}
use semestre.Posix.Int.{Fits, encode_int}
use semestre.Posix.Run.{ok}
use semestre.Posix.Kernel.{Arrival, queue}
use semestre.Posix.Calls.{c_str}
use semestre.Posix.Log.{messages}
use semestre.Posix.Strings.{NoNul}
use semestre.Protocol.{client_crashed, max_line}
use semestre.Protocol.Blocks.{blocks, oks}
use semestre.StockIp.{Entry}
use semestre.StockIp.Chain.{Cells, Chain, head_of}
use semestre.Master.{MasterState}
use semestre.Master.Events.{hand_crash}
use semestre.Master.Hands.{handed, hand_crash-hands}
use semestre.Slave.{SlaveState, master}
use semestre.Slave.Crash.Takes.{takes_over, takes_over-takes}

module _ (fuel fd : ℕ) (ip : Bytes) (a : ℕ) (x : Entry) (xs : Cells) (rest : Bytes)
    (q q' : List Arrival) (s : MasterState) (s' : SlaveState)
    (chain : Chain s.vars.nodes ((a, x) ∷ xs)) (first : s.vars.head ≡ a)
    (same : same_bytes x.ip ip ≡ true) (enough : length xs + 1 < fuel) (c_string : NoNul x.filename)
    (short : length x.filename ≤ max_line) (fits : Fits x.nb_bytes)
    (ended : drop (length x.filename) s'.vars.filename ≡ 0 ∷ rest)
    (master_reads : s.os.sockets fd ≡ queue (blocks (oks 2) q))
    (slave_reads : s'.os.sockets master
      ≡ queue (blocks (x.filename ∷ encode_int x.nb_bytes ∷ []) q')) where
  -- The first entry of the master's list is a cut transfer of the client that has come back, and
  -- the slave has read the code of it. Each of the two programs reads what the other one writes.
  -- Where the slave's array has a NUL behind the name, both return, the messages are these indeed,
  -- the slave has the name and the byte number of the entry, and the entry is out of the list.
  pub hand_crash-takes_over :
      (t : MasterState) × (t' : SlaveState) × (hand_crash fuel fd ip s ≡ ok tt t)
      × (takes_over s' ≡ ok tt t')
      × (messages fd t.os.log ≡ messages fd s.os.log ++ handed (encode_int client_crashed) x)
      × (messages master t'.os.log ≡ messages master s'.os.log ++ oks 2)
      × (c_str t'.vars.filename ≡ x.filename)
      × (t'.vars.nb_crash ≡ x.nb_bytes)
      × (t.vars.head ≡ head_of xs)
      × Chain t.vars.nodes xs
  hand_crash-takes_over =
      let (t, run, said, head, listed, left) =
        hand_crash-hands fuel fd ip a x xs q s chain first same enough master_reads in
      let (t', run', said', named, from_byte, left') =
        takes_over-takes x.filename rest x.nb_bytes q' s' c_string short fits ended slave_reads in
      (t, t', run, run', said, said', named, from_byte, head, listed)
