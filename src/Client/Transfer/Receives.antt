-- ===== src/Client/Transfer/Receives.antt =====
-- `reception_fichier` of the client, from a slave that sends the whole file.
use semestre.Posix.Log.{messages}
use semestre.Protocol.Blocks.{blocks, AllFit, joined, oks}
use semestre.Base.{
  ℕ, zero, suc, ◌+◌, ◌≤◌, ◌<◌, ◌≡◌, refl, some, List, [], ◌∷◌, arith, Bytes, length, lt→ltb, le→ltb,
  length-append, same_bytes_refl, none, ◌++◌, sym, ◌∙◌, append-nil, append_assoc, ap,
}
use semestre.Posix.Int.{pos, encode_int, int_max}
use semestre.Posix.Run.{ok}
use semestre.Posix.Kernel.{Arrival, chunk, queue, Handle, wrote, update, update_self, closed}
use semestre.Posix.Calls.{send}
use semestre.Posix.Files.{write_at, put_file, contents, close_file, seek_file, seek_handle}
use semestre.Posix.Script.{left, select-chunk, recv-chunk, write_file-at, add_int-fits}
use semestre.Posix.WriteAt.{write_at-then, write_at-nil, length-write_at}
use semestre.Protocol.{ok_code, max_line, envoi_info, attente_reponse}
use semestre.Client.{ClientState, slave}
use semestre.Client.Transfer.{store_block, receive_round, receive_loop, reception_fichier}

-- The file `path` is open at byte `k` and holds `c`, and `q` is to come from the slave.
pub record Receiving (file : ℕ) (path : Bytes) (k : ℕ) (c : Bytes) (q : List Arrival)
    (s : ClientState) : Type 0 where
  pub opened : s.os.handles file ≡ some (record { file = path; offset = k })
  pub holds : s.os.disk path ≡ some c
  pub to_come : s.os.sockets slave ≡ queue q

module _ (file : ℕ) (path : Bytes) (k : ℕ) (b : Bytes) (q : List Arrival) (s : ClientState) where
  block_stored : ClientState
  block_stored = record s {
    os = record s.os {
      sockets = update s.os.sockets slave (queue q);
      disk = put_file s.os.disk path (write_at (contents (s.os.disk path)) k b);
      handles = update s.os.handles file (some (record { file = path; offset = k + length b }));
      log = wrote slave (encode_int ok_code) ∷ s.os.log;
    };
  }

  receive_round-block :
      (c : Bytes)
      → Receiving file path k c (chunk b ∷ q) s
      → length b ≤ max_line
      → k + length b ≤ int_max
      → receive_round file (pos k) s ≡ ok (pos (k + length b)) block_stored
  unfolding receive_round store_block attente_reponse envoi_info send block_stored
  receive_round-block c at fits small =
      rw
        (
          select-chunk slave q s b at.to_come,
          recv-chunk slave q s max_line b at.to_come fits,
          add_int-fits k (length b) (left slave q s) small,
          write_file-at file b (record { file = path; offset = k }) (left slave q s) at.opened,
        )
        refl

  Receiving-stored :
      (c : Bytes)
      → Receiving file path k c (chunk b ∷ q) s
      → Receiving file path (k + length b) (write_at c k b) q block_stored
  unfolding block_stored
  Receiving-stored c at = record {
    opened = update_self s.os.handles file (some (record { file = path; offset = k + length b }));
    holds = rw (same_bytes_refl path, at.holds) refl;
    to_come = refl;
  }

-- The loop takes all of these blocks, and then stops.
abbrev pub Fills : ℕ → ℕ → List Bytes → Type 0
Fills k n [] = n ≤ k
Fills k n (b ∷ bs) = (k < n) × (length b ≤ max_line) × Fills (k + length b) n bs

pub AllFit-Fills :
    (k n : ℕ) (bs : List Bytes) → AllFit bs → k + length (joined bs) ≡ n → Fills k n bs
AllFit-Fills k n [] fit end = omega arith
AllFit-Fills k n (b ∷ bs) fit end = (
  omega (arith, length-append b (joined bs), fit.0),
  fit.1,
  AllFit-Fills (k + length b) n bs fit.2 (omega (arith, length-append b (joined bs))),
)

module _ (file : ℕ) (path : Bytes) (n : ℕ) (q : List Arrival) where
  receive_loop-blocks :
      (bs : List Bytes) (fuel k e : ℕ) (c : Bytes) (s : ClientState)
      → Receiving file path k c (blocks bs q) s
      → Fills k n bs
      → k + length (joined bs) ≡ e
      → e ≤ int_max
      → k ≤ length c
      → length bs < fuel
      → (t : ClientState) × (receive_loop fuel file (pos k) (pos n) s ≡ ok (pos e) t)
        × Receiving file path e (write_at c k (joined bs)) q t
        × (messages slave t.os.log ≡ messages slave s.os.log ++ oks (length bs))
  unfolding receive_loop messages block_stored
  receive_loop-blocks bs zero k e c s at fills end small within enough = absurd (omega arith)
  receive_loop-blocks [] (suc fuel) k e c s at fills end small within enough =
      let same : k ≡ e = omega arith in
      (
        s,
        rw (le→ltb k n fills) (ap (λ v. ok (pos v) s) same),
        rw (write_at-nil c k within, ← same) at,
        sym (append-nil _),
      )
  receive_loop-blocks (b ∷ bs) (suc fuel) k e c s at fills end small within enough =
      let (t, run, on, each) =
        receive_loop-blocks bs fuel (k + length b) e (write_at c k b)
          (block_stored file path k b (blocks bs q) s)
          (Receiving-stored file path k b (blocks bs q) s c at) fills.2
          (omega (arith, length-append b (joined bs))) small (length-write_at c k b)
          (omega arith) in
      (
        t,
        rw
            (
              lt→ltb k n fills.0,
              receive_round-block file path k b (blocks bs q) s c at fills.1
                  (omega (arith, length-append b (joined bs))),
            )
            run,
        rw (write_at-then c k b (joined bs)) at on,
        each ∙ append_assoc (messages slave s.os.log) (encode_int ok_code ∷ []) _,
      )

module _ (fuel file k e n : ℕ) (h : Handle) (c : Bytes) (bs : List Bytes) (q : List Arrival)
    (s : ClientState) (has : s.os.handles file ≡ some h) (holds : s.os.disk h.file ≡ some c)
    (come : s.os.sockets slave ≡ queue (blocks bs q)) (fills : Fills k n bs)
    (end : k + length (joined bs) ≡ e) (small : e ≤ int_max) (within : k ≤ length c)
    (enough : length bs < fuel) where
  -- The whole reception, with the writes to the slave one by one.
  pub reception_fichier-runs :
      (t : ClientState) × (reception_fichier fuel file (pos k) (pos n) s ≡ ok tt t)
      × (t.os.disk h.file ≡ some (write_at c k (joined bs)))
      × (t.os.sockets slave ≡ queue q)
      × (messages slave t.os.log ≡ messages slave s.os.log ++ oks (suc (length bs)))
  unfolding reception_fichier seek_file seek_handle envoi_info send close_file messages
  reception_fichier-runs =
      let ready_for : ClientState = record s {
        os = record s.os {
          handles = update s.os.handles file (some (record { file = h.file; offset = k }));
          log = wrote slave (encode_int ok_code) ∷ s.os.log;
        };
      } in
      let at : Receiving file h.file k c (blocks bs q) ready_for = record {
        opened = update_self s.os.handles file (some (record { file = h.file; offset = k }));
        holds = holds;
        to_come = come;
      } in
      let (t, run, on, each) =
        receive_loop-blocks file h.file n q bs fuel k e c ready_for at fills end small within
          enough in
      (
        record t {
          os = record t.os {
            handles = update t.os.handles file none;
            log = closed file ∷ t.os.log;
          };
        },
        rw (has, run) refl,
        on.holds,
        on.to_come,
        each ∙ append_assoc (messages slave s.os.log) (encode_int ok_code ∷ []) _,
      )
