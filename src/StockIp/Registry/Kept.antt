-- ===== src/StockIp/Registry/Kept.antt =====
-- A well-formed list stays so in every call, whether its loop gets enough rounds or not.
use semestre.Posix.Run.{
  Run, ok, exited, fault, out_of_fuel, Holds, held, faulted, spent, and_then, pure, left,
}
use semestre.StockIp.Lookup.{load-node}
use semestre.StockIp.Registry.Calls.{add-Stocked, add-fault}
use semestre.StockIp.Chain.{Cells, Chain, head_of, Chain-write_node}
use semestre.StockIp.Registry.{Stocked, entries}
use mathlib.Core.Path.{subst}
use semestre.Base.{
  sym, ◌≤◌, ◌<◌, ℕ, zero, suc, ◌≡◌, refl, inl, inr, true, false, Bytes, ◌==◌, [], List, ◌∷◌, ◌+◌,
  Bool-cases, arith, same_bytes, none,
}
use semestre.StockIp.{
  Nodes, ℤ, remove_loop, Entry, unlink, fits, add, null, remove_by_ip, write_node,
}
use semestre.StockIp.Update.{unlink-faults, remove_by_ip-head}

-- The strings of every entry fit their arrays.
abbrev pub AllFit : List Entry → Type 0
AllFit [] = Unit {0}
AllFit (e ∷ es) = (fits e.ip e.filename ≡ true) × AllFit es

-- The list at `head` is well-formed, and `malloc` will give free addresses from `next_node` on.
abbrev pub Kept : ℕ → ℕ → Nodes → Type 0
Kept next_node head st =
    (es : List Entry) × Stocked es (record { nodes = st; head = head; next_node = next_node })
    × AllFit es

pub Holds-add :
    (ip : Bytes) (nb : ℤ) (file : Bytes) (n head : ℕ) (st : Nodes)
    → Kept n head st
    → Holds (Kept (n + 1)) (λ t. Unit {0}) (add n head ip nb file st)
Holds-add ip nb file n head st (es, h, fit) = elim (Bool-cases (fits ip file)) [
  | inl e ↦
      let (st', ran, now) = add-Stocked ip nb file es _ h e in
      rw ran (held (record { ip = ip; nb_bytes = nb; filename = file } ∷ es, now, (e, fit)))
  | inr e ↦ rw (add-fault ip nb file es _ h e) faulted
]

-- The loop behind the head changes nothing, or does not return.
Holds-remove_loop :
    (fuel previous : ℕ) (st : Nodes) (ip : Bytes) (xs : Cells)
    → Chain st xs
    → Holds (λ u t. t ≡ st) (λ t. Unit {0}) (remove_loop fuel previous (head_of xs) ip st)
unfolding remove_loop unlink
Holds-remove_loop zero previous st ip xs c = spent
Holds-remove_loop (suc fuel) previous st ip [] c = held refl
Holds-remove_loop (suc fuel) previous st ip ((a, y) ∷ xs) c =
    let there : (a == null) ≡ false = ground (arith, c.0) in
    elim (Bool-cases (same_bytes y.ip ip)) [
      | inl same ↦
          rw
            (
              there,
              load-node st a _ c.0 c.1,
              same,
              unlink-faults st a _ c.0 c.1 previous (λ n. remove_loop fuel a n.next ip),
            )
            faulted
      | inr other ↦
          rw (there, load-node st a _ c.0 c.1, other, load-node st a _ c.0 c.1)
            (Holds-remove_loop fuel a st ip xs c.3)
    ]

Kept-cells :
    (n a : ℕ) (st : Nodes) (xs : Cells)
    → Chain st xs
    → a ≡ head_of xs
    → ((b : ℕ) → n ≤ b → st b ≡ none)
    → 0 < n
    → AllFit (entries xs)
    → Kept n a st
Kept-cells n a st xs c at_head unused ne fit = (
  entries xs,
  record { cells = xs; chain = c; at_head = at_head; holds = refl; unused = unused; not_null = ne },
  fit,
)

Holds-remove_cells :
    (fuel : ℕ) (ip : Bytes) (n : ℕ) (st : Nodes) (xs : Cells)
    → Chain st xs
    → ((b : ℕ) → n ≤ b → st b ≡ none)
    → 0 < n
    → AllFit (entries xs)
    → Holds (Kept n) (λ t. Unit {0}) (remove_by_ip fuel (head_of xs) ip st)
unfolding remove_by_ip
Holds-remove_cells fuel ip n st [] c unused ne fit =
    held (Kept-cells n null st [] c refl unused ne fit)
Holds-remove_cells fuel ip n st ((a, x) ∷ xs) c unused ne fit =
    let there : (a == null) ≡ false = ground (arith, c.0) in
    elim (Bool-cases (same_bytes x.ip ip)) [
      | inl same ↦
          let rest : Chain (write_node st a none) xs = Chain-write_node st a none xs c.2 c.3 in
          let free_left : (b : ℕ) → n ≤ b → write_node st a none b ≡ none =
            λ b le. ground (arith, unused b le) in
          rw (remove_by_ip-head fuel st ip a x xs c same) (
            held (Kept-cells n (head_of xs) (write_node st a none) xs rest refl free_left ne fit.1))
      | inr other ↦
          rw (there, load-node st a _ c.0 c.1, other)
            (after_loop (remove_loop fuel (head_of xs) (head_of xs) ip st)
              (Holds-remove_loop fuel (head_of xs) st ip xs c.3))
    ]
  where
    after_loop :
        (r : Run Nodes (Unit {0}))
        → Holds (λ u t. t ≡ st) (λ t. Unit {0}) r
        → Holds (Kept n) (λ t. Unit {0}) (and_then r (λ u. pure a))
    after_loop (ok u t) (held e) =
        held (subst (Kept n a) (sym e) (Kept-cells n a st ((a, x) ∷ xs) c refl unused ne fit))
    after_loop (exited t) h = left tt
    after_loop fault h = faulted
    after_loop (out_of_fuel t) h = spent

pub Holds-remove_by_ip :
    (fuel : ℕ) (ip : Bytes) (n head : ℕ) (st : Nodes)
    → Kept n head st
    → Holds (Kept n) (λ t. Unit {0}) (remove_by_ip fuel head ip st)
Holds-remove_by_ip fuel ip n head st (es, h, fit) = rw h.at_head (
    Holds-remove_cells fuel ip n st h.cells h.chain h.unused h.not_null
      (subst AllFit (sym h.holds) fit))
