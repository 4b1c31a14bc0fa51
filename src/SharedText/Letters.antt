-- ===== src/SharedText/Letters.antt =====
-- What the client prints.
use semestre.Base.{
  ℕ, zero, suc, ◌+◌, ◌≤◌, ◌<◌, ◌≡◌, ◌≢◌, refl, ap, ◌⊎◌, inl, inr, true, false, List, [], ◌∷◌, ◌++◌,
  Bytes, arith, ltb, ◌==◌, Bool-cases,
}
use semestre.SharedText.{
  Server, over, Client, reads, prints, marks, gone, outside, State, attached, read_next, print_next,
  client_step, Turn, server_acts, client_acts, step, run, shmsz,
}
use semestre.SharedText.Segment.{
  Segment, Opens, Begins, Printed, Lettered, LetteredState, at, unmarked, stored_cell,
  server_step-Lettered,
}

module _ (old : ℕ → ℕ) where
  -- What a cell that is no zero holds for the client, as long as it is not behind its mark.
  abbrev Letter : ℕ → ℕ → Type 0
  Letter zero x = Opens old x
  Letter (suc k) x = x ≡ 97 + suc k

  cell_at :
      (m : ℕ → ℕ) (v : Server) (c : Client) (o : Bytes) (j : ℕ)
      → Lettered old m v c o
      → c ≢ gone
      → j ≤ 26
      → (m j ≡ 0) ⊎ (Letter j (m j) × (j < 26))
  cell_at m v c o zero h n le = elim h.first [
    | inl x ↦ inl x
    | inr (inl x) ↦ inr (inl x, omega arith)
    | inr (inr (x, inl g)) ↦ absurd (n g)
    | inr (inr (x, inr (w, p))) ↦ inr (inr (x, p), omega arith)
  ]
  cell_at m v c o (suc k) h n le = elim (Bool-cases (ltb k 25)) [
    | inl e ↦ elim (h.cells k (ground arith)) [ inl x ↦ inl x | inr x ↦ inr (x, ground arith) ]
    | inr e ↦ let at_end : k ≡ 25 = ground arith in inl (rw at_end h.last)
  ]

  Letter-nonzero : (j x : ℕ) → Letter j x → x ≢ 0
  Letter-nonzero zero x (inl e) = omega arith
  Letter-nonzero zero x (inr (e, p)) = omega arith
  Letter-nonzero (suc k) x e = omega arith

  Begins-next :
      (j x : ℕ) (o : Bytes)
      → j < 26
      → Letter j x
      → Begins old j o
      → Begins old (suc j) (o ++ (x ∷ []))
  Begins-next zero x o lt h (f, opens, le, e) = (x, h, omega arith, rw e refl)
  Begins-next (suc k) x o lt h (f, opens, le, e) = (f, opens, omega arith, rw (e, h) refl)

  read_next-Lettered :
      (m : ℕ → ℕ) (v : Server) (j : ℕ) (o : Bytes)
      → Lettered old m v (reads j) o
      → LetteredState old (read_next j (at m v (reads j) o))
  unfolding read_next
  read_next-Lettered m v j o h =
      let (f, opens, le, text) = h.printed in
      let inside : ltb j shmsz ≡ true = ground (arith, le) in
      elim (cell_at m v (reads j) o j h (λ z. cc) le) [
        | inl e ↦
            rw (inside, e)
              (record {
                in_loop = h.in_loop;
                first = unmarked old (m 0) v (reads j) marks (λ z. cc) h.first;
                cells = h.cells;
                last = h.last;
                seen = tt;
                printed = (j, f, opens, le, ap (λ x. x ++ (10 ∷ [])) text);
                ends = λ z. let w = h.ends z in cc;
              })
        | inr (e, lt) ↦
            let nonzero = Letter-nonzero j (m j) e in
            let letter : (m j == 0) ≡ false = ground arith in
            rw (inside, letter)
              (record {
                in_loop = h.in_loop;
                first = unmarked old (m 0) v (reads j) (prints j) (λ z. cc) h.first;
                cells = h.cells;
                last = h.last;
                seen = (lt, nonzero);
                printed = h.printed;
                ends = λ z. let w = h.ends z in cc;
              })
      ]

  print_next-Lettered :
      (m : ℕ → ℕ) (v : Server) (j : ℕ) (o : Bytes)
      → Lettered old m v (prints j) o
      → LetteredState old (print_next j (at m v (prints j) o))
  unfolding print_next
  print_next-Lettered m v j o h =
      let (lt, nonzero) = h.seen in
      let inside : ltb j shmsz ≡ true = ground (arith, lt) in
      let next : j + 1 ≡ suc j = omega arith in
      elim (cell_at m v (prints j) o j h (λ z. cc) (omega (arith, lt))) [
        | inl e ↦ absurd (nonzero e)
        | inr (e, _) ↦
            rw (inside, next)
              (record {
                in_loop = h.in_loop;
                first = unmarked old (m 0) v (prints j) (reads (suc j)) (λ z. cc) h.first;
                cells = h.cells;
                last = h.last;
                seen = tt;
                printed = Begins-next j (m j) o lt e h.printed;
                ends = λ z. let w = h.ends z in cc;
              })
      ]

  client_step-Lettered :
      (m : ℕ → ℕ) (v : Server) (c : Client) (o : Bytes)
      → Lettered old m v c o
      → LetteredState old (client_step c (at m v c o))
  unfolding client_step
  client_step-Lettered m v (reads j) o h = read_next-Lettered m v j o h
  client_step-Lettered m v (prints j) o h = print_next-Lettered m v j o h
  client_step-Lettered m v marks o h = record {
    in_loop = h.in_loop;
    first = inr (inr (refl, inl refl));
    cells = λ k lt.
        stored_cell (λ w. (w ≡ 0) ⊎ (w ≡ 97 + suc k)) m 0 42 (suc k)
          (λ z. absurd (omega (arith, z))) (λ z. h.cells k lt);
    last = h.last;
    seen = tt;
    printed = h.printed;
    ends = λ z. refl;
  }
  client_step-Lettered m v gone o h = h
  client_step-Lettered m v outside o h = h

  step-Lettered : (t : Turn) (s : State) → LetteredState old s → LetteredState old (step t s)
  unfolding step
  step-Lettered server_acts s h = server_step-Lettered old s.shm s.server s.client s.output h
  step-Lettered client_acts s h = client_step-Lettered s.shm s.server s.client s.output h

  run-Lettered : (ts : List Turn) (s : State) → LetteredState old s → LetteredState old (run ts s)
  unfolding run
  run-Lettered [] s h = h
  run-Lettered (t ∷ ts) s h = run-Lettered ts (step t s) (step-Lettered t s h)

  attached-Lettered : Segment old → LetteredState old (attached old)
  unfolding attached
  attached-Lettered h = record {
    in_loop = omega arith;
    first = elim h.first [
      | inl e ↦ inl e
      | inr (inl e) ↦ inr (inl e)
      | inr (inr e) ↦ inr (inr (e, inr (refl, e)))
    ];
    cells = h.cells;
    last = h.last;
    seen = tt;
    printed = (97, inl refl, omega arith, refl);
    ends = λ z. cc;
  }

-- In whatever order server and client are run, on a segment that is new or that earlier runs have
-- left (each cell zero or its letter of the alphabet, the last of the 27 zero, the first one possibly
-- the mark `*`): the client never reads outside the segment; what it has printed is the alphabet up
-- to some letter, which may be none, with an end of line once it is behind its loop, where `*` may
-- stand for `a` if the segment held that mark at the start; and the server ends only behind this
-- client.
pub run-Printed :
    (old : ℕ → ℕ) (ts : List Turn)
    → Segment old
    → Printed old (run ts (attached old)).client (run ts (attached old)).output
      × ((run ts (attached old)).server ≡ over → (run ts (attached old)).client ≡ gone)
run-Printed old ts h =
    let kept = run-Lettered old ts (attached old) (attached-Lettered old h) in
    (kept.printed, kept.ends)
