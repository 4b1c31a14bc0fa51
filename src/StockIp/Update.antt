-- ===== src/StockIp/Update.antt =====
-- `remove_by_ip` against the list of entries.
use semestre.Base.{
  ℕ, zero, suc, ◌<◌, ◌≡◌, ◌≢◌, refl, ◌⊎◌, inl, inr, true, false, none, some, [], ◌∷◌, arith, ◌==◌,
  Bytes, length, same_bytes, Bool-cases, Option-cases, ◌+◌,
}
use semestre.Posix.Run.{ok, fault, ◌>>=◌, ◌>>◌}
use semestre.StockIp.{
  Entry, Node, Nodes, null, write_node, load, free, remove_first, unlink, remove_loop, remove_by_ip,
  load_cell, Mem,
}
use semestre.StockIp.Chain.{Cells, head_of, Chain, first_of_ip, Chain-write_node}
use semestre.StockIp.Lookup.{load-node}

free-node :
    (st : Nodes) (a : ℕ) (n : Node)
    → a ≢ null
    → st a ≡ some n
    → free a st ≡ ok tt (write_node st a none)
unfolding free
free-node st a n ne e = rw (load-node st a n ne e)

-- The nodes behind the removal of the head.
pub remove_by_ip-head :
    (fuel : ℕ) (st : Nodes) (ip : Bytes) (a : ℕ) (x : Entry) (xs : Cells)
    → Chain st ((a, x) ∷ xs)
    → same_bytes x.ip ip ≡ true
    → remove_by_ip fuel a ip st ≡ ok (head_of xs) (write_node st a none)
unfolding remove_by_ip remove_first
remove_by_ip-head fuel st ip a x xs c same =
    let there : (a == null) ≡ false = ground (arith, c.0) in
    rw (there, load-node st a _ c.0 c.1, same, load-node st a _ c.0 c.1, free-node st a _ c.0 c.1)

remove_loop-absent :
    (fuel previous : ℕ) (st : Nodes) (ip : Bytes) (xs : Cells)
    → Chain st xs
    → first_of_ip ip xs ≡ none
    → length xs < fuel
    → remove_loop fuel previous (head_of xs) ip st ≡ ok tt st
unfolding remove_loop unlink
remove_loop-absent zero previous st ip xs c e h = absurd (omega arith)
remove_loop-absent (suc fuel) previous st ip [] c e h = refl
remove_loop-absent (suc fuel) previous st ip ((a, x) ∷ xs) c e h =
    let there : (a == null) ≡ false = ground (arith, c.0) in
    let other : same_bytes x.ip ip ≡ false = ground arith in
    rw (there, load-node st a _ c.0 c.1, other, load-node st a _ c.0 c.1)
      (remove_loop-absent fuel a st ip xs c.3 (ground arith) (omega arith))

remove_by_ip-absent :
    (fuel : ℕ) (st : Nodes) (ip : Bytes) (xs : Cells)
    → Chain st xs
    → first_of_ip ip xs ≡ none
    → length xs < fuel
    → remove_by_ip fuel (head_of xs) ip st ≡ ok (head_of xs) st
unfolding remove_by_ip
remove_by_ip-absent fuel st ip [] c e h = refl
remove_by_ip-absent fuel st ip ((a, x) ∷ xs) c e h =
    let there : (a == null) ≡ false = ground (arith, c.0) in
    let other : same_bytes x.ip ip ≡ false = ground arith in
    rw (there, load-node st a _ c.0 c.1, other)
      (rw (remove_loop-absent fuel (head_of xs) st ip xs c.3 (ground arith) (omega arith)))

pub load-cases : (p : ℕ) (st : Nodes) → (load p st ≡ fault) ⊎ ((m : Node) × (load p st ≡ ok m st))
unfolding load load_cell
load-cases p st = elim (Bool-cases (p == null)) [
  | inl nil ↦ inl (rw nil)
  | inr there ↦ elim (Option-cases (st p)) [
    | inl freed ↦ inl (rw (there, freed))
    | inr (m, e) ↦ inr (m, rw (there, e))
  ]
]

module _ (st : Nodes) (a : ℕ) (n : Node) (ne : a ≢ null) (e : st a ≡ some n) where
  load-freed : (h : Nodes) → load a (write_node h a none) ≡ fault
  unfolding load
  load-freed h =
      let there : (a == null) ≡ false = ground (arith, ne) in
      let itself : (a == a) ≡ true = ground arith in rw (there, itself)

  -- The node is still there after its predecessor was written, whichever node that is.
  kept : (b : ℕ) (p : Node) → (m : Node) × (write_node st b (some p) a ≡ some m)
  kept b p = elim (Bool-cases (a == b)) [ inl same ↦ (p, rw same) | inr other ↦ (n, rw other e) ]

  -- Freed in this round, and read again at its end.
  pub unlink-faults :
      {B : Type 0} (previous : ℕ) (k : Node → Mem B)
      → (unlink true previous a >> (load a >>= k)) st ≡ fault
  unfolding unlink
  unlink-faults previous k = elim (load-cases previous st) [
    | inl bad ↦ rw (load-node st a n ne e, bad)
    | inr (p, good) ↦
        let (m, there) = kept previous (record p { next = n.next }) in
        let st' : Nodes = write_node st previous (some (record p { next = n.next })) in
        rw (load-node st a n ne e, good, free-node st' a m ne there, load-freed st')
  ]

remove_loop-later :
    (fuel previous : ℕ) (st : Nodes) (ip : Bytes) (xs : Cells) (x : Entry)
    → Chain st xs
    → first_of_ip ip xs ≡ some x
    → length xs < fuel
    → remove_loop fuel previous (head_of xs) ip st ≡ fault
unfolding remove_loop unlink
remove_loop-later zero previous st ip xs x c e h = absurd (omega arith)
remove_loop-later (suc fuel) previous st ip [] x c e h = cc
remove_loop-later (suc fuel) previous st ip ((a, y) ∷ xs) x c e h =
    let there : (a == null) ≡ false = ground (arith, c.0) in
    elim (Bool-cases (same_bytes y.ip ip)) [
      | inl same ↦
          rw (there, load-node st a _ c.0 c.1, same) (unlink-faults st a _ c.0 c.1 previous _)
      | inr other ↦
          rw (there, load-node st a _ c.0 c.1, other, load-node st a _ c.0 c.1)
            (remove_loop-later fuel a st ip xs x c.3 (rw other at e) (omega arith))
    ]

remove_by_ip-later :
    (fuel : ℕ) (st : Nodes) (ip : Bytes) (a : ℕ) (x y : Entry) (xs : Cells)
    → Chain st ((a, x) ∷ xs)
    → length xs < fuel
    → same_bytes x.ip ip ≡ false
    → first_of_ip ip xs ≡ some y
    → remove_by_ip fuel a ip st ≡ fault
unfolding remove_by_ip
remove_by_ip-later fuel st ip a x y xs c h other later =
    let there : (a == null) ≡ false = ground (arith, c.0) in
    rw (
      there,
      load-node st a _ c.0 c.1,
      other,
      remove_loop-later fuel (head_of xs) st ip xs y c.3 later h,
    )

-- What `remove_by_ip` does on every well-formed list, by where the client's first entry is. At the
-- head: that node is freed and the rest of the list is the result, well-formed. Nowhere: nothing
-- changes. Behind the head: a fault, since the loop reads `current->next` of a freed node.
pub remove_by_ip-cases :
    (fuel : ℕ) (st : Nodes) (ip : Bytes) (a : ℕ) (x : Entry) (xs : Cells)
    → Chain st ((a, x) ∷ xs)
    → length xs + 1 < fuel
    → ((same_bytes x.ip ip ≡ true)
        × (remove_by_ip fuel a ip st ≡ ok (head_of xs) (write_node st a none))
        × Chain (write_node st a none) xs)
      ⊎ ((first_of_ip ip ((a, x) ∷ xs) ≡ none) × (remove_by_ip fuel a ip st ≡ ok a st)
          ⊎ (same_bytes x.ip ip ≡ false)
            × (first_of_ip ip xs ≢ none)
            × (remove_by_ip fuel a ip st ≡ fault))
remove_by_ip-cases fuel st ip a x xs c h = elim (Bool-cases (same_bytes x.ip ip)) [
  | inl same ↦
      inl (same, remove_by_ip-head fuel st ip a x xs c same, Chain-write_node st a none xs c.2 c.3)
  | inr other ↦ inr (elim (Option-cases (first_of_ip ip xs)) [
    | inl nowhere ↦
        let e : first_of_ip ip ((a, x) ∷ xs) ≡ none = rw other nowhere in
        inl (e, remove_by_ip-absent fuel st ip ((a, x) ∷ xs) c e (omega arith))
    | inr (y, later) ↦ inr (
      other,
      rw later (λ e. cc),
      remove_by_ip-later fuel st ip a x y xs c (omega arith) other later,
    )
  ])
]
