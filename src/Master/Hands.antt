-- ===== src/Master/Hands.antt =====
-- `hand_crash` with a slave that answers OK.
use semestre.Base.{
  ℕ, ◌+◌, ◌<◌, ◌≡◌, ◌==◌, refl, true, none, some, List, [], ◌∷◌, ◌++◌, arith, Bytes, length,
  same_bytes, append_assoc,
}
use semestre.Posix.Int.{pos, encode_int}
use semestre.Posix.Run.{ok}
use semestre.Posix.Kernel.{Arrival, queue, wrote}
use semestre.Posix.Calls.{send}
use semestre.Posix.Log.{messages}
use semestre.Posix.Script.{left, logged, select-chunk, recv_int-encode}
use semestre.Protocol.{client_crashed, ok_code, envoi_info, attente_reponse}
use semestre.Protocol.Blocks.{blocks, oks}
use semestre.StockIp.{Entry, write_node}
use semestre.StockIp.Chain.{Cells, Chain, head_of, first_of_ip, Chain-write_node}
use semestre.StockIp.Lookup.{queries-first_of_ip}
use semestre.StockIp.Update.{remove_by_ip-head}
use semestre.Master.{MasterState}
use semestre.Master.Events.{send_name, envoi_info_crash, drop_crash, hand_crash}

-- What the slave is sent.
abbrev pub handed : Bytes → Entry → List Bytes
handed code x = code ∷ x.filename ∷ encode_int x.nb_bytes ∷ []

module _ (fuel fd : ℕ) (ip : Bytes) (a : ℕ) (x : Entry) (xs : Cells) (q : List Arrival)
    (s : MasterState) (chain : Chain s.vars.nodes ((a, x) ∷ xs)) (first : s.vars.head ≡ a)
    (same : same_bytes x.ip ip ≡ true) (enough : length xs + 1 < fuel)
    (come : s.os.sockets fd ≡ queue (blocks (oks 2) q)) where
  told : MasterState
  told = logged (wrote fd (encode_int client_crashed)) s

  asked : MasterState
  unfolding told
  asked =
      let s' = left fd (blocks (oks 1) q) told in
      logged (wrote fd x.filename)
        (record s' { vars = record s'.vars { info = ok_code; head = a } })

  counted : MasterState
  unfolding asked
  counted = logged (wrote fd (encode_int x.nb_bytes)) (left fd q asked)

  removed : MasterState
  unfolding counted
  removed = record counted {
    vars = record counted.vars { nodes = write_node s.vars.nodes a none; head = head_of xs };
  }

  pub hand_crash-hands :
      (t : MasterState) × (hand_crash fuel fd ip s ≡ ok tt t)
      × (messages fd t.os.log ≡ messages fd s.os.log ++ handed (encode_int client_crashed) x)
      × (t.vars.head ≡ head_of xs)
      × Chain t.vars.nodes xs
      × (t.os.sockets fd ≡ queue q)
  unfolding hand_crash drop_crash envoi_info_crash send_name attente_reponse envoi_info send
      messages removed
  hand_crash-hands =
      let here : (fd == fd) ≡ true = ground arith in
      let found : first_of_ip ip ((a, x) ∷ xs) ≡ some x = rw same refl in
      let (known, count, name) =
        queries-first_of_ip fuel s.vars.nodes ip ((a, x) ∷ xs) chain (omega arith) in
      (
        removed,
        rw
            (
              select-chunk fd _ told (encode_int ok_code) come,
              recv_int-encode fd _ told s.vars.info ok_code come (omega arith),
              first,
              name,
              found,
              count,
              found,
              select-chunk fd (blocks (oks 0) q) asked (encode_int ok_code) (rw here refl),
              recv_int-encode fd (blocks (oks 0) q) asked (pos 0) ok_code (rw here refl)
                  (omega arith),
              remove_by_ip-head fuel s.vars.nodes ip a x xs chain same,
            )
            refl,
        rw here (simp append_assoc),
        refl,
        Chain-write_node s.vars.nodes a none xs chain.2 chain.3,
        rw here refl,
      )
