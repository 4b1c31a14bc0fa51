-- ===== src/StockIp/Lookup.antt =====
-- `contain`, `bytes` and `file_name` against the list of entries.
use semestre.Base.{
  ℕ, zero, suc, ◌<◌, ◌≡◌, ◌≢◌, refl, false, some, [], ◌∷◌, arith, ◌==◌, Bytes, length, Bool-cases,
  same_bytes, inl, inr,
}
use semestre.Posix.Run.{ok}
use semestre.StockIp.{
  Node, Nodes, null, load, find_from, file_name, bytes, contain, name_of, count_of, flag_of,
}
use semestre.StockIp.Chain.{Cells, head_of, Chain, first_of_ip}

pub load-node : (st : Nodes) (a : ℕ) (n : Node) → a ≢ null → st a ≡ some n → load a st ≡ ok n st
unfolding load
load-node st a n ne e = let there : (a == null) ≡ false = ground arith in rw (there, e)

find_from-first :
    (fuel : ℕ) (st : Nodes) (ip : Bytes) (xs : Cells)
    → Chain st xs
    → length xs < fuel
    → find_from fuel (head_of xs) ip st ≡ ok (first_of_ip ip xs) st
unfolding find_from
find_from-first zero st ip xs c h = absurd (omega arith)
find_from-first (suc fuel) st ip [] c h = refl
find_from-first (suc fuel) st ip ((a, x) ∷ xs) c h =
    let there : (a == null) ≡ false = ground (arith, c.0) in
    rw (there, load-node st a _ c.0 c.1)
      (elim (Bool-cases (same_bytes x.ip ip)) [
        | inl same ↦ rw same
        | inr other ↦ rw other (find_from-first fuel st ip xs c.3 (omega arith))
      ])

-- On a well-formed list the three queries return, change nothing and agree with one another: all
-- three speak of the first entry of that client, which is the latest one added.
pub queries-first_of_ip :
    (fuel : ℕ) (st : Nodes) (ip : Bytes) (xs : Cells)
    → Chain st xs
    → length xs < fuel
    → (contain fuel (head_of xs) ip st ≡ ok (flag_of (first_of_ip ip xs)) st)
      × (bytes fuel (head_of xs) ip st ≡ ok (count_of (first_of_ip ip xs)) st)
      × (file_name fuel (head_of xs) ip st ≡ ok (name_of (first_of_ip ip xs)) st)
unfolding contain bytes file_name
queries-first_of_ip fuel st ip xs c h =
    let e = find_from-first fuel st ip xs c h in (rw e, rw e, rw e)
