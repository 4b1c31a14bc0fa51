-- ===== src/StockIp/Registry/Refines.antt =====
-- Every run of calls on the heap against the same calls on a list.
use semestre.Base.{
  ◌<◌, ℕ, ◌+◌, ◌≤◌, ◌≡◌, refl, inl, inr, Option, none, some, List, [], ◌∷◌, arith, Bytes, length,
  same_bytes, Bool-cases, Option-cases,
}
use semestre.Posix.Run.{ok, fault}
use semestre.StockIp.{Entry, fits}
use semestre.StockIp.Registry.{
  Op, added, asked, removed, Reply, Store, exec, run, latest, drop_first, quietly, spec, replied,
  followed, replay, Stocked,
}
use semestre.StockIp.Registry.Calls.{Refines, exec-Refines}

-- No call makes the list longer by more than one entry.
abbrev AtMost : ℕ → Option (Reply × List Entry) → Type 0
AtMost n none = Unit {0}
AtMost n (some (y, fs)) = length fs ≤ n

AtMost-quietly :
    (ip : Bytes) (e : Entry) (es : List Entry)
    → AtMost (length (e ∷ es) + 1) (quietly (drop_first ip (e ∷ es)))
AtMost-quietly ip e es = elim (Bool-cases (same_bytes e.ip ip)) [
  | inl same ↦ rw same (omega arith)
  | inr other ↦ elim (Option-cases (latest ip es)) [
    | inl nowhere ↦ rw (other, nowhere) (omega arith)
    | inr (x, there) ↦ rw (other, there) tt
  ]
]

spec-AtMost : (op : Op) (es : List Entry) → AtMost (length es + 1) (spec op es)
unfolding spec
spec-AtMost (added ip nb file) es = elim (Bool-cases (fits ip file)) [
  | inl e ↦ rw e (omega arith)
  | inr e ↦ rw e tt
]
spec-AtMost (asked ip) es = omega arith
spec-AtMost (removed ip) [] = omega arith
spec-AtMost (removed ip) (e ∷ es) = AtMost-quietly ip e es

run-replied :
    (fuel : ℕ) (op : Op) (ops : List Op) (y : Reply) (s t : Store)
    (r : Option (List Reply × List Entry))
    → exec fuel op s ≡ ok y t
    → Refines (run fuel ops t) r
    → Refines (run fuel (op ∷ ops) s) (replied y r)
unfolding run
run-replied fuel op ops y s t none ran h = rw (ran, h) refl
run-replied fuel op ops y s t (some (ys, gs)) ran (u, e, held) = (u, rw (ran, e) refl, held)

run-fault :
    (fuel : ℕ) (op : Op) (ops : List Op) (s : Store)
    → exec fuel op s ≡ fault
    → run fuel (op ∷ ops) s ≡ fault
unfolding run
run-fault fuel op ops s e = rw e refl

run-followed :
    (fuel : ℕ) (op : Op) (ops : List Op) (es : List Entry) (s : Store)
    (r : Option (Reply × List Entry))
    → length es + (length ops + 1) < fuel
    → ((fs : List Entry) (t : Store)
        → Stocked fs t
        → length fs + length ops < fuel
        → Refines (run fuel ops t) (replay ops fs))
    → Refines (exec fuel op s) r
    → AtMost (length es + 1) r
    → Refines (run fuel (op ∷ ops) s) (followed (replay ops) r)
run-followed fuel op ops es s none lt later e le = run-fault fuel op ops s e
run-followed fuel op ops es s (some (y, fs)) lt later (t, ran, held) le =
    run-replied fuel op ops y s t (replay ops fs) ran (later fs t held (omega arith))

-- Every run of calls, from a heap that holds the list `es`, does what the same calls do on `es`
-- itself: the queries answer with the latest entry of their client, whatever was added and removed
-- between, an addition is seen by every later query, and the heap at the end holds the list that is
-- left. It is a fault exactly where the calls on the list have no result. The loops need one round
-- for each entry there can be, and one more.
pub run-Refines :
    (fuel : ℕ) (ops : List Op) (es : List Entry) (s : Store)
    → Stocked es s
    → length es + length ops < fuel
    → Refines (run fuel ops s) (replay ops es)
unfolding run replay
run-Refines fuel [] es s h lt = (s, refl, h)
run-Refines fuel (op ∷ ops) es s h lt =
    run-followed fuel op ops es s (spec op es) (omega arith)
      (λ fs t held. run-Refines fuel ops fs t held) (exec-Refines fuel op es s h (omega arith))
      (spec-AtMost op es)
