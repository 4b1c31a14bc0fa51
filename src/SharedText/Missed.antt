-- ===== src/SharedText/Missed.antt =====
-- A client that is over before the server has written anything.
use mathlib.Core.Path.{subst}
use semestre.Base.{
  inl, inr, ℕ, zero, suc, ◌+◌, ◌≡◌, ◌≢◌, refl, sym, false, List, [], ◌∷◌, Bytes, arith, ltb, ◌==◌,
  Bool-cases,
}
use semestre.SharedText.{
  Server, writes, checks, over, Client, reads, prints, marks, gone, outside, State, write_next,
  check_first, server_step, client_step, Turn, server_acts, client_acts, step, run,
}

-- The mark is not there any more once the server has written its first letter, and nobody sets it
-- again.
abbrev Overwritten : Server → (ℕ → ℕ) → Type 0
Overwritten (writes zero) m = Unit {0}
Overwritten (writes (suc i)) m = m 0 ≡ 97
Overwritten checks m = m 0 ≡ 97
Overwritten over m = ⊥

abbrev Missed : State → Type 0
Missed s = (s.client ≡ gone) × Overwritten s.server s.shm

server_step-Missed :
    (m : ℕ → ℕ) (v : Server) (c : Client) (o : Bytes)
    → Missed (record { shm = m; server = v; client = c; output = o })
    → Missed (server_step v (record { shm = m; server = v; client = c; output = o }))
unfolding server_step write_next check_first
server_step-Missed m (writes zero) c o h = (h.0, refl)
server_step-Missed m (writes (suc i)) c o h = elim (Bool-cases (ltb (suc i) 26)) [
  | inl e ↦
      let next : suc i + 1 ≡ suc (suc i) = omega arith in
      let other : (0 == suc i) ≡ false = ground arith in rw (e, next, other) h
  | inr e ↦ let other : (0 == suc i) ≡ false = ground arith in rw (e, other) h
]
server_step-Missed m checks c o h =
    let other : (m 0 == 42) ≡ false = ground (arith, h.1) in rw other h
server_step-Missed m over c o h = h

client_step-Missed :
    (m : ℕ → ℕ) (v : Server) (c : Client) (o : Bytes)
    → Missed (record { shm = m; server = v; client = c; output = o })
    → Missed (client_step c (record { shm = m; server = v; client = c; output = o }))
unfolding client_step
client_step-Missed m v (reads j) o h = let e = h.0 in cc
client_step-Missed m v (prints j) o h = let e = h.0 in cc
client_step-Missed m v marks o h = let e = h.0 in cc
client_step-Missed m v gone o h = h
client_step-Missed m v outside o h = let e = h.0 in cc

run-Missed : (ts : List Turn) (s : State) → Missed s → Missed (run ts s)
unfolding run step
run-Missed [] s h = h
run-Missed (server_acts ∷ ts) s h =
    run-Missed ts (step server_acts s) (server_step-Missed s.shm s.server s.client s.output h)
run-Missed (client_acts ∷ ts) s h =
    run-Missed ts (step client_acts s) (client_step-Missed s.shm s.server s.client s.output h)

not_over : (v : Server) (m : ℕ → ℕ) → Overwritten v m → v ≢ over
not_over (writes i) m h e = cc
not_over checks m h e = cc
not_over over m h e = h

-- When the client has ended while the server is still in front of its first letter, the server never
-- ends, whatever turns the two get from then on: its first letter replaces the client's mark.
pub run-misses :
    (s : State) (ts : List Turn) → s.client ≡ gone → s.server ≡ writes 0 → (run ts s).server ≢ over
run-misses s ts ended first =
    let h = run-Missed ts s (ended, subst (λ v. Overwritten v s.shm) (sym first) tt) in
    not_over (run ts s).server (run ts s).shm h.1
