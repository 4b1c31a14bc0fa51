-- ===== src/StockIp/Registry/Calls.antt =====
-- Each call on the heap against the same call on a list.
use semestre.Base.{
  ◌<◌, ◌==◌, ℕ, suc, ◌+◌, ◌≤◌, ◌≡◌, refl, sym, ap, ◌∙◌, inl, inr, false, Option, none, some, List,
  [], ◌∷◌, arith, Bytes, length, same_bytes, Bool-cases, Option-cases, true,
}
use semestre.Posix.Int.{ℤ}
use semestre.Posix.Run.{Run, ok, fault}
use semestre.StockIp.{Entry, Node, null, write_node, Nodes, fits, add, remove_by_ip}
use semestre.StockIp.Chain.{Cells, head_of, Chain, first_of_ip, used-none, Chain-write_node}
use semestre.StockIp.Lookup.{queries-first_of_ip}
use semestre.StockIp.Update.{remove_by_ip-cases}
use semestre.StockIp.Registry.{
  Op, added, asked, removed, quiet, Store, stored, ask_all, exec, latest, drop_first, quietly, spec,
  entries, Stocked,
}

-- A run does what the list says: a fault for `none`, and otherwise the same replies, on a heap that
-- holds the list behind them.
abbrev pub Refines : {A : Type 0} → Run Store A → Option (A × List Entry) → Type 0
Refines r none = r ≡ fault
Refines r (some (y, es)) = (t : Store) × (r ≡ ok y t) × Stocked es t

latest-entries : (ip : Bytes) (xs : Cells) → latest ip (entries xs) ≡ first_of_ip ip xs
latest-entries ip [] = refl
latest-entries ip ((a, x) ∷ xs) = elim (Bool-cases (same_bytes x.ip ip)) [
  | inl e ↦ rw e refl
  | inr e ↦ rw e (latest-entries ip xs)
]

length-entries : (xs : Cells) → length (entries xs) ≡ length xs
length-entries [] = refl
length-entries (c ∷ xs) = ap suc (length-entries xs)

module _ (ip : Bytes) (nb : ℤ) (file : Bytes) (es : List Entry) (s : Store) (h : Stocked es s) where
  there : (s.next_node == null) ≡ false
  there = ground (arith, h.not_null)

  -- `add` with strings that fit.
  pub add-Stocked :
      fits ip file ≡ true
      → (st : Nodes) × (add s.next_node s.head ip nb file s.nodes ≡ ok s.next_node st)
        × Stocked
            (record { ip = ip; nb_bytes = nb; filename = file } ∷ es)
            (record { nodes = st; head = s.next_node; next_node = s.next_node + 1 })
  unfolding add
  add-Stocked e =
      let out =
        used-none s.nodes s.next_node h.cells (h.unused s.next_node (omega arith)) h.chain in
      let entry : Entry = record { ip = ip; nb_bytes = nb; filename = file } in
      let node : Node = record { entry = entry; next = head_of h.cells } in
      (
        write_node s.nodes s.next_node (some node),
        rw (there, e, h.at_head) refl,
        record {
          cells = (s.next_node, entry) ∷ h.cells;
          chain = (
            λ z. omega (arith, z, h.not_null),
            ground arith,
            out,
            Chain-write_node s.nodes s.next_node (some node) h.cells out h.chain,
          );
          at_head = refl;
          holds = ap (◌∷◌ entry) h.holds;
          unused = λ a le. ground (arith, h.unused a (omega arith));
          not_null = omega arith;
        },
      )

  pub add-fault : fits ip file ≡ false → add s.next_node s.head ip nb file s.nodes ≡ fault
  unfolding add
  add-fault e = rw (there, e) refl

  added-Refines : (fuel : ℕ) → Refines (exec fuel (added ip nb file) s) (spec (added ip nb file) es)
  unfolding exec spec stored
  added-Refines fuel = elim (Bool-cases (fits ip file)) [
    | inl e ↦
        let (st, ran, held) = add-Stocked e in
        rw (e, ran)
          (record { nodes = st; head = s.next_node; next_node = s.next_node + 1 }, refl, held)
    | inr e ↦ rw (e, add-fault e) refl
  ]

asked-Refines :
    (fuel : ℕ) (ip : Bytes) (es : List Entry) (s : Store)
    → Stocked es s
    → length es < fuel
    → Refines (exec fuel (asked ip) s) (spec (asked ip) es)
unfolding exec spec stored ask_all
asked-Refines fuel ip es s h lt =
    let (flag, count, name) =
      queries-first_of_ip fuel s.nodes ip h.cells h.chain
        (omega (arith, length-entries h.cells, ap length h.holds)) in
    let same : first_of_ip ip h.cells ≡ latest ip es =
      sym (latest-entries ip h.cells) ∙ ap (latest ip) h.holds in
    (s, rw (h.at_head, flag, count, name, same) refl, h)

module _ (fuel : ℕ) (ip : Bytes) (s : Store) (a : ℕ) (at_head : s.head ≡ a) where
  exec-removed :
      (h : ℕ) (st : Nodes)
      → remove_by_ip fuel a ip s.nodes ≡ ok h st
      → exec fuel (removed ip) s ≡ ok quiet (record s { nodes = st; head = h })
  unfolding exec stored
  exec-removed h st e = simp (at_head, e) refl

  exec-removed_fault : remove_by_ip fuel a ip s.nodes ≡ fault → exec fuel (removed ip) s ≡ fault
  unfolding exec stored
  exec-removed_fault e = simp (at_head, e) refl

spec-removed :
    (ip : Bytes) (es fs : List Entry)
    → drop_first ip es ≡ some fs
    → spec (removed ip) es ≡ some (quiet, fs)
unfolding spec
spec-removed ip es fs e = ap quietly e

spec-refused :
    (ip : Bytes) (es : List Entry) → drop_first ip es ≡ none → spec (removed ip) es ≡ none
unfolding spec
spec-refused ip es e = ap quietly e

-- The removal, by the cells of the list.
removed_cells-Refines :
    (fuel : ℕ) (ip : Bytes) (xs : Cells) (s : Store)
    → Chain s.nodes xs
    → s.head ≡ head_of xs
    → ((a : ℕ) → s.next_node ≤ a → s.nodes a ≡ none)
    → 0 < s.next_node
    → length xs + 1 < fuel
    → Refines (exec fuel (removed ip) s) (spec (removed ip) (entries xs))
removed_cells-Refines fuel ip [] s c at_head unused ne lt =
    let nothing = exec-removed fuel ip s null at_head null s.nodes (unfold remove_by_ip in refl) in
    rw (nothing, spec-removed ip [] [] refl)
      (
        record s { head = null },
        refl,
        record {
          cells = [];
          chain = tt;
          at_head = refl;
          holds = refl;
          unused = unused;
          not_null = ne;
        },
      )
removed_cells-Refines fuel ip ((a, x) ∷ xs) s c at_head unused ne lt =
    elim (remove_by_ip-cases fuel s.nodes ip a x xs c (omega arith)) [
      | inl (same, ran, rest) ↦
          rw
            (
              exec-removed fuel ip s a at_head (head_of xs) (write_node s.nodes a none) ran,
              spec-removed ip (x ∷ entries xs) (entries xs) (rw same refl),
            )
            (
              record s { nodes = write_node s.nodes a none; head = head_of xs },
              refl,
              record {
                cells = xs;
                chain = rest;
                at_head = refl;
                holds = refl;
                unused = λ b le. ground (arith, unused b le);
                not_null = ne;
              },
            )
      | inr (inl (absent, ran)) ↦
          let other : same_bytes x.ip ip ≡ false = ground arith in
          let none_left : latest ip (entries xs) ≡ none =
            latest-entries ip xs ∙ (rw other at absent) in
          rw
            (
              exec-removed fuel ip s a at_head a s.nodes ran,
              spec-removed ip (x ∷ entries xs) (x ∷ entries xs) (rw (other, none_left) refl),
            )
            (
              record s { head = a },
              refl,
              record {
                cells = (a, x) ∷ xs;
                chain = c;
                at_head = refl;
                holds = refl;
                unused = unused;
                not_null = ne;
              },
            )
      | inr (inr (other, later, ran)) ↦ elim (Option-cases (first_of_ip ip xs)) [
        | inl nowhere ↦ absurd (later nowhere)
        | inr (y, there) ↦
            let left : latest ip (entries xs) ≡ some y = latest-entries ip xs ∙ there in
            rw
              (
                exec-removed_fault fuel ip s a at_head ran,
                spec-refused ip (x ∷ entries xs) (rw (other, left) refl),
              )
              refl
      ]
    ]

removed-Refines :
    (fuel : ℕ) (ip : Bytes) (es : List Entry) (s : Store)
    → Stocked es s
    → length es + 1 < fuel
    → Refines (exec fuel (removed ip) s) (spec (removed ip) es)
removed-Refines fuel ip es s h lt = rw (← h.holds) (
    removed_cells-Refines fuel ip h.cells s h.chain h.at_head h.unused h.not_null
      (omega (arith, length-entries h.cells, ap length h.holds)))

pub exec-Refines :
    (fuel : ℕ) (op : Op) (es : List Entry) (s : Store)
    → Stocked es s
    → length es + 1 < fuel
    → Refines (exec fuel op s) (spec op es)
exec-Refines fuel (added ip nb file) es s h lt = added-Refines ip nb file es s h fuel
exec-Refines fuel (asked ip) es s h lt = asked-Refines fuel ip es s h (omega arith)
exec-Refines fuel (removed ip) es s h lt = removed-Refines fuel ip es s h lt
