-- ===== src/Slave/Transfer/Sends/Prefix.antt =====
-- A beginning of a transfer, as far as the client has answered.
use semestre.Protocol.Blocks.{block, length-block}
use semestre.Base.{
  ℕ, zero, suc, ◌+◌, ◌*◌, ◌≤◌, ◌≡◌, refl, sym, List, ◌++◌, arith, Bytes, length, take, drop, lt→ltb,
  append-nil, drop-drop, take-add,
}
use semestre.Posix.Int.{pos, int_max}
use semestre.Posix.Kernel.{Arrival}
use semestre.Protocol.{max_line}
use semestre.Slave.{SlaveState}
use semestre.Slave.Transfer.{send_loop}
use semestre.Slave.Transfer.Sends.{
  acks, Sending, Wrote, send_round-acked, Sending-block, block_answered, Wrote-then,
}

block-take :
    (m k : ℕ) (c : Bytes)
    → k + max_line ≤ length c
    → block k c ++ take (m * max_line) (drop (k + length (block k c)) c)
      ≡ take (suc m * max_line) (drop k c)
block-take m k c h =
    let whole : length (block k c) ≡ max_line = omega (arith, length-block k c) in
    let total : max_line + m * max_line ≡ suc m * max_line = omega arith in
    rw (whole, ← drop-drop max_line k c, take-add max_line (m * max_line) (drop k c), total)

module _ (file : ℕ) (path c : Bytes) (q : List Arrival) (small : length c ≤ int_max) where
  -- The rounds that are answered, up to byte `e`, before whatever comes next.
  pub send_loop-prefix :
      (m fuel k e : ℕ) (s : SlaveState)
      → Sending file path k c (acks m q) s
      → k + m * max_line ≡ e
      → e ≤ length c
      → (t : SlaveState) × (send_loop (m + fuel) file (pos k) (pos (length c)) s
          ≡ send_loop fuel file (pos e) (pos (length c)) t)
        × Sending file path e c q t
        × Wrote (take (m * max_line) (drop k c)) q s t
  unfolding send_loop take
  send_loop-prefix zero fuel k e s at end h =
      let no_round : 0 + fuel ≡ fuel = omega arith in
      let same : k ≡ e = omega arith in
      rw (no_round, ← same)
        (
          s,
          refl,
          at,
          record {
            sent = sym (append-nil _);
            still = at.to_come;
            quiet = refl;
            same_vars = refl;
            same_disk = refl;
            same_master = refl;
          },
        )
  send_loop-prefix (suc m) fuel k e s at end h =
      let one_more : suc m + fuel ≡ suc (m + fuel) = omega arith in
      let (t, run, on, w) =
        send_loop-prefix m fuel (k + length (block k c)) e
          (block_answered file path k c s (acks m q)) (Sending-block file path k c s at)
          (omega (arith, length-block k c)) h in
      (
        t,
        rw
            (
              one_more,
              lt→ltb k (length c) (omega arith),
              send_round-acked file path k c s (pos (length c)) at
                  (omega (arith, length-block k c)),
            )
            run,
        on,
        Wrote-then file path k c s (acks m q) q (block-take m k c (omega arith)) w,
      )
