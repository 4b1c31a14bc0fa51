-- ===== src/SharedText/Segment.antt =====
-- The segment with what earlier runs have left, the text that the client prints from it, and the
-- steps of the server.
use semestre.Base.{
  ℕ, zero, suc, ◌+◌, ◌≤◌, ◌<◌, ◌≡◌, ◌≢◌, refl, ◌⊎◌, inl, inr, [], ◌∷◌, ◌++◌, Bytes, arith, ltb,
  ◌==◌, Bool-cases,
}
use semestre.SharedText.{
  Server, writes, checks, over, Client, reads, prints, marks, gone, outside, State, store,
  write_next, check_first, server_step,
}

-- The first letters of the alphabet, with `f` for the first one.
abbrev pub letter_at : ℕ → ℕ → ℕ
letter_at f zero = f
letter_at f (suc k) = 97 + suc k

abbrev pub letters : ℕ → ℕ → Bytes
letters f zero = []
letters f (suc j) = letters f j ++ (letter_at f j ∷ [])

-- A segment that is new or that earlier runs have left: each cell is zero or its letter, the last
-- one zero, and the first one may hold a client's mark.
pub record Segment (m : ℕ → ℕ) : Type 0 where
  pub first : (m 0 ≡ 0) ⊎ ((m 0 ≡ 97) ⊎ (m 0 ≡ 42))
  pub cells : (k : ℕ) → k < 25 → (m (suc k) ≡ 0) ⊎ (m (suc k) ≡ 97 + suc k)
  pub last : m 26 ≡ 0

abbrev pub at : (ℕ → ℕ) → Server → Client → Bytes → State
at m v c o = record { shm = m; server = v; client = c; output = o }

pub stored_cell :
    (P : ℕ → Type 0) (m : ℕ → ℕ) (i c k : ℕ) → (k ≡ i → P c) → (k ≢ i → P (m k)) → P (store m i c k)
stored_cell P m i c k new old = elim (Bool-cases (k == i)) [
  | inl e ↦ rw e (new (ground arith))
  | inr e ↦ rw e (old (ground arith))
]

-- `old` is what the segment holds at the start.
module _ (old : ℕ → ℕ) where
  -- What the client may print for the first cell.
  abbrev pub Opens : ℕ → Type 0
  Opens f = (f ≡ 97) ⊎ ((f ≡ 42) × (old 0 ≡ 42))

  abbrev pub Begins : ℕ → Bytes → Type 0
  Begins j out = (f : ℕ) × Opens f × (j ≤ 26) × (out ≡ letters f j)

  abbrev pub Ended : Bytes → Type 0
  Ended out = (j : ℕ) × (f : ℕ) × Opens f × (j ≤ 26) × (out ≡ letters f j ++ (10 ∷ []))

  abbrev pub Printed : Client → Bytes → Type 0
  Printed (reads j) out = Begins j out
  Printed (prints j) out = Begins j out
  Printed marks out = Ended out
  Printed gone out = Ended out
  Printed outside out = ⊥

  abbrev pub InLoop : Server → Type 0
  InLoop (writes i) = i ≤ 26
  InLoop checks = Unit {0}
  InLoop over = Unit {0}

  -- Who has left the mark: this client, or one of an earlier run, until the server writes.
  abbrev pub Marked : Server → Client → Type 0
  Marked v c = (c ≡ gone) ⊎ ((v ≡ writes 0) × (old 0 ≡ 42))

  abbrev pub First : ℕ → Server → Client → Type 0
  First x v c = (x ≡ 0) ⊎ ((x ≡ 97) ⊎ ((x ≡ 42) × Marked v c))

  -- Between test and `putchar`.
  abbrev pub Seen : (ℕ → ℕ) → Client → Type 0
  Seen m (reads j) = Unit {0}
  Seen m (prints j) = (j < 26) × (m j ≢ 0)
  Seen m marks = Unit {0}
  Seen m gone = Unit {0}
  Seen m outside = Unit {0}

  pub record Lettered (m : ℕ → ℕ) (v : Server) (c : Client) (o : Bytes) : Type 0 where
    pub in_loop : InLoop v
    pub first : First (m 0) v c
    pub cells : (k : ℕ) → k < 25 → (m (suc k) ≡ 0) ⊎ (m (suc k) ≡ 97 + suc k)
    pub last : m 26 ≡ 0
    pub seen : Seen m c
    pub printed : Printed c o
    pub ends : v ≡ over → c ≡ gone

  abbrev pub LetteredState : State → Type 0
  LetteredState s = Lettered s.shm s.server s.client s.output

  pub unmarked : (x : ℕ) (v : Server) (c c' : Client) → c ≢ gone → First x v c → First x v c'
  unmarked x v c c' n (inl e) = inl e
  unmarked x v c c' n (inr (inl e)) = inr (inl e)
  unmarked x v c c' n (inr (inr (e, inl g))) = absurd (n g)
  unmarked x v c c' n (inr (inr (e, inr p))) = inr (inr (e, inr p))

  -- The server goes on, but does not write the first cell.
  later : (x i : ℕ) (v : Server) (c : Client) → i ≢ 0 → First x (writes i) c → First x v c
  later x i v c n (inl e) = inl e
  later x i v c n (inr (inl e)) = inr (inl e)
  later x i v c n (inr (inr (e, inl g))) = inr (inr (e, inl g))
  later x i v c n (inr (inr (e, inr (w, p)))) = absurd (n cc)

  store-Seen : (m : ℕ → ℕ) (i x : ℕ) (c : Client) → x ≢ 0 → Seen m c → Seen (store m i x) c
  store-Seen m i x (reads j) n h = tt
  store-Seen m i x (prints j) n h = (h.0, stored_cell (λ v. v ≢ 0) m i x j (λ e. n) (λ e. h.1))
  store-Seen m i x marks n h = tt
  store-Seen m i x gone n h = tt
  store-Seen m i x outside n h = tt

  -- The NUL behind the alphabet.
  store_nul-Seen : (m : ℕ → ℕ) (c : Client) → Seen m c → Seen (store m 26 0) c
  store_nul-Seen m (reads j) h = tt
  store_nul-Seen m (prints j) h =
      (h.0, stored_cell (λ v. v ≢ 0) m 26 0 j (λ e. absurd (omega (arith, h.0))) (λ e. h.1))
  store_nul-Seen m marks h = tt
  store_nul-Seen m gone h = tt
  store_nul-Seen m outside h = tt

  write_next-Lettered :
      (m : ℕ → ℕ) (i : ℕ) (c : Client) (o : Bytes)
      → Lettered m (writes i) c o
      → LetteredState (write_next i (at m (writes i) c o))
  unfolding write_next
  write_next-Lettered m i c o h = elim (Bool-cases (ltb i 26)) [
    | inl e ↦ rw e (record {
      in_loop = ground arith;
      first =
          stored_cell (λ x. First x (writes (i + 1)) c) m i (97 + i) 0
            (λ z. inr (inl (omega arith)))
            (λ z. later (m 0) i (writes (i + 1)) c (omega (arith, z)) h.first);
      cells = λ k lt.
          stored_cell (λ v. (v ≡ 0) ⊎ (v ≡ 97 + suc k)) m i (97 + i) (suc k)
            (λ z. inr (omega arith)) (λ z. h.cells k lt);
      last = stored_cell (λ v. v ≡ 0) m i (97 + i) 26 (λ z. absurd (ground arith)) (λ z. h.last);
      seen = store-Seen m i (97 + i) c (omega arith) h.seen;
      printed = h.printed;
      ends = λ z. cc;
    })
    | inr e ↦
        let at_end : i ≡ 26 = ground (arith, h.in_loop) in
        rw (e, at_end)
          (record {
            in_loop = tt;
            first =
                stored_cell (λ x. First x checks c) m 26 0 0 (λ z. inl refl)
                  (λ z. later (m 0) i checks c (omega arith) h.first);
            cells = λ k lt.
                stored_cell (λ v. (v ≡ 0) ⊎ (v ≡ 97 + suc k)) m 26 0 (suc k) (λ z. inl refl)
                  (λ z. h.cells k lt);
            last = stored_cell (λ v. v ≡ 0) m 26 0 26 (λ z. refl) (λ z. h.last);
            seen = store_nul-Seen m c h.seen;
            printed = h.printed;
            ends = λ z. cc;
          })
  ]

  marked : (m : ℕ → ℕ) (c : Client) → First (m 0) checks c → m 0 ≡ 42 → c ≡ gone
  marked m c (inl x) y = absurd (omega arith)
  marked m c (inr (inl x)) y = absurd (omega arith)
  marked m c (inr (inr (x, inl g))) y = g
  marked m c (inr (inr (x, inr (w, p)))) y = absurd cc

  check_first-Lettered :
      (m : ℕ → ℕ) (c : Client) (o : Bytes)
      → Lettered m checks c o
      → LetteredState (check_first (at m checks c o))
  unfolding check_first
  check_first-Lettered m c o h = elim (Bool-cases (m 0 == 42)) [
    | inl e ↦
        let ended = marked m c h.first (ground arith) in
        rw e (record {
          in_loop = tt;
          first = over_first (m 0) c ended h.first;
          cells = h.cells;
          last = h.last;
          seen = h.seen;
          printed = h.printed;
          ends = λ z. ended;
        })
    | inr e ↦ rw e h
  ]
    where
      over_first : (x : ℕ) (c' : Client) → c' ≡ gone → First x checks c' → First x over c'
      over_first x c' g (inl e) = inl e
      over_first x c' g (inr (inl e)) = inr (inl e)
      over_first x c' g (inr (inr (e, p))) = inr (inr (e, inl g))

  pub server_step-Lettered :
      (m : ℕ → ℕ) (v : Server) (c : Client) (o : Bytes)
      → Lettered m v c o
      → LetteredState (server_step v (at m v c o))
  unfolding server_step
  server_step-Lettered m (writes i) c o h = write_next-Lettered m i c o h
  server_step-Lettered m checks c o h = check_first-Lettered m c o h
  server_step-Lettered m over c o h = h
