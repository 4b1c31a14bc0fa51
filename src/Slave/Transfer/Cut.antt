-- ===== src/Slave/Transfer/Cut.antt =====
-- `envoi_fichier_au_client` towards a client that stops answering, and the report to the master.
use semestre.Protocol.Blocks.{block, length-block}
use semestre.Posix.Log.{written}
use semestre.Base.{
  ℕ, ◌+◌, ◌-◌, ◌≤◌, ◌<◌, ◌≡◌, refl, true, false, List, ◌∷◌, ◌++◌, arith, Bytes, length, leb, le→ltb,
  if◌then◌else◌, ◌==◌, some, append_assoc, ◌*◌, take, drop, ◌∙◌, lt→ltb,
}
use semestre.Posix.Int.{ℤ, pos, encode_int, int_max}
use semestre.Posix.Run.{ok}
use semestre.Posix.Kernel.{late, Arrival, queue, wrote, closed, update, shut}
use semestre.Posix.Calls.{send, close, sub_int, fill}
use semestre.Posix.Script.{
  left, select-chunk, select-late, recv_int-encode, read_file-at, add_int-fits, logged,
}
use semestre.Protocol.{
  ok_code, client_crashed_during_transfert, max_line, inet_addrstrlen, envoi_info, attente_reponse,
}
use semestre.Slave.{Vars, Slave, SlaveState, master, clientfd}
use semestre.Slave.Transfer.{
  await_ok_then, sent_crash_to_master, write_block, give_up, send_round, send_loop,
}
use semestre.Slave.Transfer.Sends.{acks, handle_at, Sending, block_written}
use semestre.Slave.Transfer.Sends.Prefix.{send_loop-prefix}

await_ok_then-ok :
    (info : ℤ) (m : ℤ → Slave (Unit {0})) (q : List Arrival) (s : SlaveState)
    → s.os.sockets master ≡ queue (acks 1 q)
    → await_ok_then info m s ≡ m ok_code (left master q s)
unfolding await_ok_then attente_reponse
await_ok_then-ok info m q s e = rw (
  select-chunk master q s (encode_int ok_code) e,
  recv_int-encode master q s info ok_code e (omega arith),
)

-- The three turns of the dialogue with the master.
reported : Bytes → ℤ → Bytes → List Arrival → SlaveState → SlaveState
reported ip z name q s = logged (wrote master (fill max_line name)) (
    left master q (
      logged (wrote master (encode_int z)) (
        left master (acks 1 q)
          (logged (wrote master (fill inet_addrstrlen ip)) (left master (acks 2 q) s)))))

sent_crash_to_master-told :
    (ip : Bytes) (z : ℤ) (name : Bytes) (q : List Arrival) (s : SlaveState)
    → s.os.sockets master ≡ queue (acks 3 q)
    → sent_crash_to_master ip z name s ≡ ok tt (reported ip z name q s)
unfolding sent_crash_to_master send reported
sent_crash_to_master-told ip z name q s e = rw (
  await_ok_then-ok _ _ (acks 2 q) s e,
  await_ok_then-ok _ _ (acks 1 q)
      (logged (wrote master (fill inet_addrstrlen ip)) (left master (acks 2 q) s)) refl,
  await_ok_then-ok _ _ q
      (logged (wrote master (encode_int z)) (
        left master (acks 1 q)
          (logged (wrote master (fill inet_addrstrlen ip)) (left master (acks 2 q) s))))
      refl,
)

sub_int-fits :
    (k m : ℕ) (s : SlaveState) → m ≤ k → k ≤ int_max → sub_int (pos k) m s ≡ ok (pos (k - m)) s
unfolding sub_int
sub_int-fits k m s h small =
    let fits : leb (k - m) int_max ≡ true = ground arith in
    let above : leb m k ≡ true = ground arith in rw (above, fits)

disconnected : SlaveState → SlaveState
disconnected s = record s { vars = record s.vars { connected = false } }

-- What a cut at byte `r` makes of the state.
gave_up : ℕ → List Arrival → SlaveState → SlaveState
unfolding reported disconnected
gave_up r q s =
    let told =
      reported s.vars.client_ip_string (pos r) s.vars.filename q
        (logged (wrote master (encode_int client_crashed_during_transfert)) (disconnected s)) in
    record told {
      os = record told.os {
        sockets = λ j. if j == clientfd then shut else told.os.sockets j;
        log = closed clientfd ∷ told.os.log;
      };
    }

give_up-cut :
    (r n : ℕ) (q : List Arrival) (s : SlaveState)
    → s.os.sockets master ≡ queue (acks 3 q)
    → n + 1 ≤ int_max
    → give_up (pos r) (pos n) s ≡ ok (pos (n + 1)) (gave_up r q s)
unfolding give_up envoi_info send close gave_up
give_up-cut r n q s e small = rw (
  le→ltb r 0 (omega arith),
  sent_crash_to_master-told s.vars.client_ip_string (pos r) s.vars.filename q
      (logged (wrote master (encode_int client_crashed_during_transfert)) (disconnected s)) e,
  add_int-fits n 1 (gave_up r q s) small,
)

-- The four writes of a report, as the master reads them.
abbrev pub crash_report : Vars → ℕ → Bytes
crash_report v r =
    encode_int client_crashed_during_transfert
    ++ (fill inet_addrstrlen v.client_ip_string ++ (encode_int (pos r) ++ fill max_line v.filename))

module _ (file : ℕ) (path c : Bytes) (rest q : List Arrival) where
  send_round-cut :
      (e r : ℕ) (s : SlaveState)
      → Sending file path e c (late ∷ rest) s
      → s.os.sockets master ≡ queue (acks 3 q)
      → e + length (block e c) ≡ r + max_line
      → e + length (block e c) ≤ length c
      → length c < int_max
      → send_round file (pos e) (pos (length c)) s
        ≡ ok (pos (length c + 1)) (gave_up r q (left clientfd rest (block_written file path e c s)))
  unfolding send_round write_block attente_reponse send block_written
  send_round-cut e r s at told reach within small =
      let shown : e + length (block e c) - max_line ≡ r = omega arith in
      rw (
        read_file-at file max_line (handle_at path e) s at.opened,
        at.holds,
        add_int-fits e (length (block e c))
            (record s {
              os = record s.os {
                handles = update s.os.handles file (some (handle_at path (e + length (block e c))));
              };
            })
            (omega arith),
        select-late clientfd rest (block_written file path e c s) at.to_come,
        sub_int-fits (e + length (block e c)) max_line
            (left clientfd rest (block_written file path e c s)) (omega arith) (omega arith),
        shown,
        give_up-cut r (length c) q (left clientfd rest (block_written file path e c s)) told
            (omega arith),
      )

  told-gave_up :
      (e r : ℕ) (s : SlaveState)
      → let t = gave_up r q (left clientfd rest (block_written file path e c s)) in
        (t.vars.connected ≡ false)
        × (written master t.os.log ≡ written master s.os.log ++ crash_report s.vars r)
        × (written clientfd t.os.log ≡ written clientfd s.os.log ++ block e c)
  unfolding gave_up written block_written
  told-gave_up e r s = (refl, simp append_assoc, refl)

-- A transfer from byte `k` of `c` to a client that answers `m` blocks and then no more, where at
-- least MAXLINE bytes of the file are out and the master answers: the call returns disconnected.
-- The client was sent the `m` blocks and one more; the master is sent the code of a crash during a
-- transfer, the client's address, a byte number `r` and the name of the file. `r` is MAXLINE less
-- than what was written, so it is not beyond the last byte that the client has answered.
pub send_loop-cut :
    (m file : ℕ) (path c : Bytes) (rest q : List Arrival) (k e r : ℕ) (s : SlaveState)
    → Sending file path k c (acks m (late ∷ rest)) s
    → s.os.sockets master ≡ queue (acks 3 q)
    → k + m * max_line ≡ e
    → e < length c
    → e + length (block e c) ≡ r + max_line
    → length c < int_max
    → (t : SlaveState) × (send_loop (m + 2) file (pos k) (pos (length c)) s
        ≡ ok (pos (length c + 1)) t)
      × (t.vars.connected ≡ false)
      × (written master t.os.log ≡ written master s.os.log ++ crash_report s.vars r)
      × (written clientfd t.os.log
          ≡ written clientfd s.os.log ++ (take (m * max_line) (drop k c) ++ block e c))
      × (r ≤ e)
unfolding send_loop
send_loop-cut m file path c rest q k e r s at told end more reach small =
    let (u, run, on, w) =
      send_loop-prefix file path c (late ∷ rest) (omega arith) m 2 k e s at end (omega arith) in
    let (off, report, blocks) = told-gave_up file path c rest q e r u in
    (
      gave_up r q (left clientfd rest (block_written file path e c u)),
      run
          ∙ rw (
            lt→ltb e (length c) more,
            send_round-cut file path c rest q e r u on (w.same_master ∙ told) reach
                (omega (arith, length-block e c)) small,
            le→ltb (length c + 1) (length c) (omega arith),
          ),
      off,
      report ∙ rw (w.quiet, w.same_vars),
      blocks ∙ rw w.sent (append_assoc (written clientfd s.os.log) _ _),
      omega (arith, length-block e c),
    )
