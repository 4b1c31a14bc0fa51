-- ===== src/Client/Transfer/Sends.antt =====
-- `envoi_fichier_a_esclave` towards a slave that answers every block.
use semestre.Protocol.Blocks.{block, rounds, cut_from, length-block, all_from, blocks, oks}
use semestre.Posix.Files.{seek_handle, seek_file}
use semestre.Base.{
  ℕ, zero, suc, ◌+◌, ◌-◌, ◌*◌, ◌≤◌, ◌<◌, ◌≡◌, refl, ap, sym, ◌∙◌, some, List, ◌∷◌, ◌++◌, arith,
  Bytes, length, lt→ltb, le→ltb, append_assoc, append-nil, [],
}
use semestre.Posix.Int.{pos, encode_int, int_max}
use semestre.Posix.Run.{ok}
use semestre.Posix.Kernel.{chunk, Arrival, queue, Handle, wrote, update, update_self}
use semestre.Posix.Calls.{send}
use semestre.Posix.Log.{messages}
use semestre.Posix.Script.{left, select-chunk, recv_int-encode, read_file-at, add_int-fits}
use semestre.Protocol.{ok_code, max_line, attente_reponse}
use semestre.Client.{ClientState, slave}
use semestre.Client.Transfer.{write_block, send_round, send_loop, envoi_fichier_a_esclave}

-- `m` times OK, and then `q`.
abbrev pub acks : ℕ → List Arrival → List Arrival
acks m q = blocks (oks m) q

abbrev pub handle_at : Bytes → ℕ → Handle
handle_at path k = record { file = path; offset = k }

-- The file is open, `k` bytes of it are read, and `q` is to come from the slave.
pub record Sending (file : ℕ) (path : Bytes) (k : ℕ) (c : Bytes) (q : List Arrival)
    (s : ClientState) : Type 0 where
  pub opened : s.os.handles file ≡ some (handle_at path k)
  pub holds : s.os.disk path ≡ some c
  pub to_come : s.os.sockets slave ≡ queue q

module _ (file : ℕ) (path : Bytes) (k : ℕ) (c : Bytes) (s : ClientState) where
  -- The state behind the write of a block, and behind the answer to it.
  unfoldable pub block_written : ClientState
  block_written = record s {
    os = record s.os {
      handles = update s.os.handles file (some (handle_at path (k + length (block k c))));
      log = wrote slave (block k c) ∷ s.os.log;
    };
  }

  block_answered : List Arrival → ClientState
  unfolding block_written
  block_answered q = left slave q block_written

  Sending-block :
      {q : List Arrival}
      → Sending file path k c (chunk (encode_int ok_code) ∷ q) s
      → Sending file path (k + length (block k c)) c q (block_answered q)
  unfolding block_answered
  Sending-block at = record {
    opened = update_self s.os.handles file (some (handle_at path (k + length (block k c))));
    holds = at.holds;
    to_come = refl;
  }

  send_round-acked :
      {q : List Arrival}
      → Sending file path k c (chunk (encode_int ok_code) ∷ q) s
      → k + length (block k c) ≤ int_max
      → send_round file (pos k) s ≡ ok (pos (k + length (block k c))) (block_answered q)
  unfolding send_round write_block attente_reponse send block_answered
  send_round-acked {q} at small = rw (
    read_file-at file max_line (handle_at path k) s at.opened,
    at.holds,
    add_int-fits k (length (block k c))
        (record s {
          os = record s.os {
            handles = update s.os.handles file (some (handle_at path (k + length (block k c))));
          };
        })
        small,
    select-chunk slave q block_written (encode_int ok_code) at.to_come,
    recv_int-encode slave q block_written (pos 0) ok_code at.to_come (omega arith),
  )

module _ (file : ℕ) (path c : Bytes) (q : List Arrival) (small : length c ≤ int_max) where
  send_loop-acked :
      (m fuel k : ℕ) (s : ClientState)
      → Sending file path k c (acks m q) s
      → k ≤ length c
      → length c - k ≤ m * max_line
      → m * max_line < length c - k + max_line
      → m < fuel
      → (t : ClientState) × (send_loop fuel file (pos k) (pos (length c)) s ≡ ok (pos (length c)) t)
        × (t.os.sockets slave ≡ queue q)
        × (messages slave t.os.log ≡ messages slave s.os.log ++ cut_from m k c)
  unfolding send_loop messages block_answered block_written
  send_loop-acked m zero k s at h most least enough = absurd (omega arith)
  send_loop-acked zero (suc fuel) k s at h most least enough =
      let end : k ≡ length c = omega arith in
      (
        s,
        rw (le→ltb k (length c) (omega arith)) (ap (λ v. ok (pos v) s) end),
        at.to_come,
        sym (append-nil _),
      )
  send_loop-acked (suc m) (suc fuel) k s at h most least enough =
      let next =
        send_loop-acked m fuel (k + length (block k c)) (block_answered file path k c s (acks m q))
          (Sending-block file path k c s at) (omega (arith, length-block k c))
          (omega (arith, length-block k c)) (omega (arith, length-block k c)) (omega arith) in
      (
        next.0,
        rw
            (
              lt→ltb k (length c) (omega arith),
              send_round-acked file path k c s at (omega (arith, length-block k c)),
            )
            next.1,
        next.2,
        next.3 ∙ append_assoc (messages slave s.os.log) (block k c ∷ []) _,
      )

module _ (fuel file k : ℕ) (h : Handle) (c : Bytes) (q : List Arrival) (s : ClientState)
    (has : s.os.handles file ≡ some h) (holds : s.os.disk h.file ≡ some c)
    (come : s.os.sockets slave ≡ queue (acks (rounds (length c - k)) q))
    (small : length c ≤ int_max) (within : k ≤ length c)
    (enough : rounds (length c - k) < fuel) where
  -- The whole transfer, with the writes one by one.
  pub envoi_fichier_a_esclave-runs :
      (t : ClientState) × (envoi_fichier_a_esclave fuel file (pos k) (pos (length c)) s ≡ ok tt t)
      × (t.os.sockets slave ≡ queue q)
      × (messages slave t.os.log ≡ messages slave s.os.log ++ all_from k c)
  unfolding envoi_fichier_a_esclave seek_file seek_handle
  envoi_fichier_a_esclave-runs =
      let moved : ClientState = record s {
        os = record s.os { handles = update s.os.handles file (some (handle_at h.file k)) };
      } in
      let at : Sending file h.file k c (acks (rounds (length c - k)) q) moved = record {
        opened = update_self s.os.handles file (some (handle_at h.file k));
        holds = holds;
        to_come = come;
      } in
      let (t, run, w, each) =
        send_loop-acked file h.file c q small (rounds (length c - k)) fuel k moved at within
          (omega arith) (omega arith) enough in
      (t, rw (has, run), w, each)
