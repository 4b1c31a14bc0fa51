-- ===== src/MyCopy/Copies.antt =====
-- What `mycopy` writes.
use semestre.Base.{
  inl, inr, lt_or_le, same_bytes_refl, ℕ, zero, suc, ◌+◌, ◌-◌, ◌≤◌, ◌<◌, ◌≡◌, refl, sym, ap, ◌∙◌,
  true, none, some, [], ◌∷◌, ◌++◌, arith, Bytes, length, take, drop, drop_all, append-nil,
  append_assoc, drop-drop, take-append-drop-length, length-take, length-drop, min,
}
use semestre.Posix.Run.{ok, exited, out_of_fuel, pure, exit, ◌>>◌}
use semestre.Posix.Kernel.{got, Process, wrote, closed, update, update_self}
use semestre.Posix.Calls.{send}
use semestre.Posix.Files.{full, read_only, opened, open_file, close_file, install}
use semestre.Posix.Log.{written}
use semestre.Posix.Script.{read_file-at, open_file-opened, with_open, logged}
use semestre.MyCopy.{
  Copier, buffer_size, stdout, read_in, copy_block, copy_loop, close_in, copy_opened, mycopy,
}

abbrev part : ℕ → Bytes → Bytes
part k c = take buffer_size (drop k c)

length-part : (k : ℕ) (c : Bytes) → length (part k c) ≡ min buffer_size (length c - k)
length-part k c = omega (arith, length-take buffer_size (drop k c), length-drop k c)

part-rest : (k : ℕ) (c : Bytes) → part k c ++ drop (k + length (part k c)) c ≡ drop k c
part-rest k c =
    rw (← drop-drop (length (part k c)) k c) (take-append-drop-length buffer_size (drop k c))

copy_block-last :
    (b : Bytes) (rest : Copier (Unit {0})) → length b ≡ 0 → copy_block (got b) rest ≡ pure tt
unfolding copy_block
copy_block-last [] rest e = refl
copy_block-last (x ∷ b) rest e = absurd (omega arith)

copy_block-more :
    (b : Bytes) (rest : Copier (Unit {0}))
    → 0 < length b
    → copy_block (got b) rest ≡ (send stdout b >> rest)
unfolding copy_block
copy_block-more [] rest e = absurd (omega arith)
copy_block-more (x ∷ b) rest e = refl

module _ (file : ℕ) (path c : Bytes) where
  -- The state behind a read at byte `k`, and behind the write of what was read.
  block_read : ℕ → Process (Unit {0}) → Process (Unit {0})
  block_read k s = record s {
    os = record s.os {
      handles =
          update s.os.handles file (some (record { file = path; offset = k + length (part k c) }));
    };
  }

  copy_loop-copies :
      (fuel k : ℕ) (s : Process (Unit {0}))
      → s.os.handles file ≡ some (record { file = path; offset = k })
      → s.os.disk path ≡ some c
      → k ≤ length c
      → length c - k < fuel
      → (t : Process (Unit {0})) × (copy_loop fuel (some file) s ≡ ok tt t)
        × (written stdout t.os.log ≡ written stdout s.os.log ++ drop k c)
        × (t.os.disk ≡ s.os.disk)
  unfolding copy_loop read_in send written block_read
  copy_loop-copies zero k s at holds le lt = absurd (omega arith)
  copy_loop-copies (suc fuel) k s at holds le lt =
      let read = read_file-at file buffer_size (record { file = path; offset = k }) s at in
      let here =
        update_self s.os.handles file
          (some (record { file = path; offset = k + length (part k c) })) in
      elim (lt_or_le k (length c)) [
        | inl more ↦
            let (t, run, said, kept) =
              copy_loop-copies fuel (k + length (part k c))
                (logged (wrote stdout (part k c)) (block_read k s)) here holds
                (omega (arith, length-part k c)) (omega (arith, length-part k c)) in
            (
              t,
              rw
                  (
                    read,
                    holds,
                    copy_block-more (part k c) (copy_loop fuel (some file))
                        (omega (arith, length-part k c)),
                  )
                  run,
              said
                  ∙ append_assoc (written stdout s.os.log) _ _
                  ∙ ap (◌++◌ (written stdout s.os.log)) (part-rest k c),
              kept,
            )
        | inr last ↦
            let none_left = drop_all k c last in
            (
              block_read k s,
              rw
                  (
                    read,
                    holds,
                    copy_block-last (part k c) (copy_loop fuel (some file))
                        (omega (arith, length-part k c)),
                  )
                  refl,
              rw none_left (sym (append-nil _)),
              refl,
            )
      ]

copy_loop-spins : (fuel : ℕ) (s : Process (Unit {0})) → copy_loop fuel none s ≡ out_of_fuel s
unfolding copy_loop read_in copy_block
copy_loop-spins zero s = refl
copy_loop-spins (suc fuel) s = copy_loop-spins fuel s

copy_opened-some :
    (fuel file : ℕ)
    → 0 < file
    → copy_opened fuel (some file) ≡ (do copy_loop fuel (some file); close_in (some file); exit)
unfolding copy_opened
copy_opened-some fuel zero used = absurd (omega arith)
copy_opened-some fuel (suc n) used = refl

-- A file that can be read and holds `c`, where descriptor 0 is in use: given a round for each byte
-- and one more, the program ends, and has written exactly `c` to its standard output.
pub mycopy-copies :
    (fuel : ℕ) (path c : Bytes) (s : Process (Unit {0}))
    → s.os.disk (full s.os path) ≡ some c
    → s.os.system.may_read (full s.os path) ≡ true
    → 0 < s.os.next_handle
    → length c < fuel
    → (t : Process (Unit {0})) × (mycopy fuel (path ∷ []) s ≡ exited t)
      × (written stdout t.os.log ≡ written stdout s.os.log ++ c)
      × (t.os.disk (full s.os path) ≡ some c)
unfolding mycopy close_in close_file written
mycopy-copies fuel path c s holds readable used enough =
    let f = full s.os path in
    let (t, run, said, kept) =
      copy_loop-copies s.os.next_handle f c fuel 0 (with_open f c s)
        (update_self s.os.handles s.os.next_handle (some (record { file = f; offset = 0 })))
        (rw (same_bytes_refl f) refl) (omega arith) (omega arith) in
    (
      record t {
        os = record t.os {
          handles = update t.os.handles s.os.next_handle none;
          log = closed s.os.next_handle ∷ t.os.log;
        };
      },
      rw
          (
            open_file-opened read_only path c s (rw (holds, readable) (unfold opened in refl)),
            copy_opened-some fuel s.os.next_handle used,
            run,
          )
          refl,
      said ∙ ap (λ d. written stdout s.os.log ++ d) (unfold drop in refl),
      ap (λ d. d f) kept ∙ rw (same_bytes_refl f) refl,
    )

-- A path that does not exist: however many rounds there are, the program is still in its loop.
mycopy-spins :
    (fuel : ℕ) (path : Bytes) (s : Process (Unit {0}))
    → s.os.disk (full s.os path) ≡ none
    → mycopy fuel (path ∷ []) s ≡ out_of_fuel s
unfolding mycopy copy_opened open_file install opened
mycopy-spins fuel path s e = rw (e, copy_loop-spins fuel s) refl
