-- ===== src/Slave/Transfer/Sends.antt =====
-- `envoi_fichier_au_client` towards a client that answers every block.
pub mod Prefix
use semestre.Protocol.Blocks.{
  block, rounds, cut_from, length-block, block-rest, all_from, blocks, oks,
}
use semestre.Posix.Files.{seek_handle, seek_file}
use semestre.Base.{
  ℕ, zero, suc, ◌+◌, ◌-◌, ◌*◌, ◌≤◌, ◌<◌, ◌≡◌, refl, ap, sym, ◌∙◌, some, List, ◌∷◌, ◌++◌, arith,
  Bytes, length, take, drop, lt→ltb, le→ltb, append_assoc, append-nil, drop-drop, drop_all,
  take-add, [],
}
use semestre.Posix.Int.{ℤ, pos, encode_int, int_max}
use semestre.Posix.Run.{ok}
use semestre.Posix.Kernel.{chunk, Arrival, queue, Handle, wrote, update, update_self}
use semestre.Posix.Calls.{send}
use semestre.Posix.Log.{written, messages}
use semestre.Posix.Script.{left, select-chunk, recv_int-encode, read_file-at, add_int-fits}
use semestre.Protocol.{ok_code, max_line, attente_reponse}
use semestre.Slave.{SlaveState, master, clientfd}
use semestre.Slave.Transfer.{write_block, send_round, send_loop, envoi_fichier_au_client}

-- `m` times OK, and then `q`.
abbrev pub acks : ℕ → List Arrival → List Arrival
acks m q = blocks (oks m) q

abbrev pub handle_at : Bytes → ℕ → Handle
handle_at path k = record { file = path; offset = k }

-- The file is open, `k` bytes of it are read, and `q` is to come from the client.
pub record Sending (file : ℕ) (path : Bytes) (k : ℕ) (c : Bytes) (q : List Arrival) (s : SlaveState)
    : Type 0 where
  pub opened : s.os.handles file ≡ some (handle_at path k)
  pub holds : s.os.disk path ≡ some c
  pub to_come : s.os.sockets clientfd ≡ queue q

module _ (file : ℕ) (path : Bytes) (k : ℕ) (c : Bytes) (s : SlaveState) where
  -- The state behind the write of a block, and behind the answer to it.
  unfoldable pub block_written : SlaveState
  block_written = record s {
    os = record s.os {
      handles = update s.os.handles file (some (handle_at path (k + length (block k c))));
      log = wrote clientfd (block k c) ∷ s.os.log;
    };
  }

  block_answered : List Arrival → SlaveState
  unfolding block_written
  block_answered q = left clientfd q block_written

  Sending-block :
      {q : List Arrival}
      → Sending file path k c (chunk (encode_int ok_code) ∷ q) s
      → Sending file path (k + length (block k c)) c q (block_answered q)
  unfolding block_answered
  Sending-block at = record {
    opened = update_self s.os.handles file (some (handle_at path (k + length (block k c))));
    holds = at.holds;
    to_come = refl;
  }

  send_round-acked :
      (n : ℤ) {q : List Arrival}
      → Sending file path k c (chunk (encode_int ok_code) ∷ q) s
      → k + length (block k c) ≤ int_max
      → send_round file (pos k) n s ≡ ok (pos (k + length (block k c))) (block_answered q)
  unfolding send_round write_block attente_reponse send block_answered
  send_round-acked n {q} at small = rw (
    read_file-at file max_line (handle_at path k) s at.opened,
    at.holds,
    add_int-fits k (length (block k c))
        (record s {
          os = record s.os {
            handles = update s.os.handles file (some (handle_at path (k + length (block k c))));
          };
        })
        small,
    select-chunk clientfd q block_written (encode_int ok_code) at.to_come,
    recv_int-encode clientfd q block_written (pos 0) ok_code at.to_come (omega arith),
  )

-- `s` has become `t` by writing `bs` to the client, with `q` left to come.
pub record Wrote (bs : Bytes) (q : List Arrival) (s t : SlaveState) : Type 0 where
  pub sent : written clientfd t.os.log ≡ written clientfd s.os.log ++ bs
  pub still : t.os.sockets clientfd ≡ queue q
  pub quiet : written master t.os.log ≡ written master s.os.log
  pub same_vars : t.vars ≡ s.vars
  pub same_disk : t.os.disk ≡ s.os.disk
  pub same_master : t.os.sockets master ≡ s.os.sockets master

-- A block that is answered, and what is written behind it.
Wrote-then :
    (file : ℕ) (path : Bytes) (k : ℕ) (c : Bytes) (s : SlaveState) (q r : List Arrival)
    {bs cs : Bytes} {t : SlaveState}
    → block k c ++ bs ≡ cs
    → Wrote bs r (block_answered file path k c s q) t
    → Wrote cs r s t
unfolding written block_answered
Wrote-then file path k c s q r e w = record {
  sent =
      w.sent
      ∙ append_assoc (written clientfd s.os.log) _ _
      ∙ ap (◌++◌ (written clientfd s.os.log)) e;
  still = w.still;
  quiet = w.quiet;
  same_vars = w.same_vars;
  same_disk = w.same_disk;
  same_master = w.same_master;
}

module _ (file : ℕ) (path c : Bytes) (q : List Arrival) (small : length c ≤ int_max) where
  send_loop-acked :
      (m fuel k : ℕ) (s : SlaveState)
      → Sending file path k c (acks m q) s
      → k ≤ length c
      → length c - k ≤ m * max_line
      → m * max_line < length c - k + max_line
      → m < fuel
      → (t : SlaveState) × (send_loop fuel file (pos k) (pos (length c)) s ≡ ok (pos (length c)) t)
        × Wrote (drop k c) q s t
        × (messages clientfd t.os.log ≡ messages clientfd s.os.log ++ cut_from m k c)
  unfolding send_loop messages block_answered block_written
  send_loop-acked m zero k s at h most least enough = absurd (omega arith)
  send_loop-acked zero (suc fuel) k s at h most least enough =
      let none_left = drop_all k c (omega arith) in
      let end : k ≡ length c = omega arith in
      (
        s,
        rw (le→ltb k (length c) (omega arith)) (ap (λ v. ok (pos v) s) end),
        record {
          sent = rw none_left (sym (append-nil _));
          still = at.to_come;
          quiet = refl;
          same_vars = refl;
          same_disk = refl;
          same_master = refl;
        },
        sym (append-nil _),
      )
  send_loop-acked (suc m) (suc fuel) k s at h most least enough =
      let next =
        send_loop-acked m fuel (k + length (block k c)) (block_answered file path k c s (acks m q))
          (Sending-block file path k c s at) (omega (arith, length-block k c))
          (omega (arith, length-block k c)) (omega (arith, length-block k c)) (omega arith) in
      (
        next.0,
        rw
            (
              lt→ltb k (length c) (omega arith),
              send_round-acked file path k c s (pos (length c)) at
                  (omega (arith, length-block k c)),
            )
            next.1,
        Wrote-then file path k c s _ q (block-rest k c) next.2,
        next.3 ∙ append_assoc (messages clientfd s.os.log) (block k c ∷ []) _,
      )

module _ (fuel file k : ℕ) (h : Handle) (c : Bytes) (q : List Arrival) (s : SlaveState)
    (has : s.os.handles file ≡ some h) (holds : s.os.disk h.file ≡ some c)
    (come : s.os.sockets clientfd ≡ queue (acks (rounds (length c - k)) q))
    (small : length c ≤ int_max) (within : k ≤ length c)
    (enough : rounds (length c - k) < fuel) where
  -- The whole transfer, with the writes one by one.
  pub envoi_fichier_au_client-runs :
      (t : SlaveState) × (envoi_fichier_au_client fuel file (pos k) (pos (length c)) s ≡ ok tt t)
      × Wrote (drop k c) q s t
      × (messages clientfd t.os.log ≡ messages clientfd s.os.log ++ all_from k c)
  unfolding envoi_fichier_au_client seek_file seek_handle
  envoi_fichier_au_client-runs =
      let moved : SlaveState = record s {
        os = record s.os { handles = update s.os.handles file (some (handle_at h.file k)) };
      } in
      let at : Sending file h.file k c (acks (rounds (length c - k)) q) moved = record {
        opened = update_self s.os.handles file (some (handle_at h.file k));
        holds = holds;
        to_come = come;
      } in
      let (t, run, w, each) =
        send_loop-acked file h.file c q small (rounds (length c - k)) fuel k moved at within
          (omega arith) (omega arith) enough in
      (
        t,
        rw (has, run),
        record {
          sent = w.sent;
          still = w.still;
          quiet = w.quiet;
          same_vars = w.same_vars;
          same_disk = w.same_disk;
          same_master = w.same_master;
        },
        each,
      )
