-- ===== src/StockIp/Examples.antt =====
-- A list of two crashes in the heap: tests, and the theorems at it.
use semestre.StockIp.Registry.Refines.{run-Refines}
use semestre.StockIp.Registry.{
  Store, Stocked, replay, Op, spec, added, run, asked, quiet, removed, about,
}
use semestre.Base.{
  ◌≡◌, ◌≢◌, refl, ◌⊎◌, true, false, none, some, [], ◌∷◌, codes, arith, ◌==◌, if◌then◌else◌,
  same_bytes, List,
}
use semestre.Posix.Int.{pos, negsuc}
use semestre.Posix.Run.{ok, fault}
use semestre.StockIp.{Entry, Nodes, write_node, load, remove_loop, unlink, remove_by_ip, free}
use semestre.StockIp.Chain.{Cells, Chain, first_of_ip}
use semestre.StockIp.Update.{remove_by_ip-cases}

abbrev crash_a : Entry
crash_a = record { ip = codes "10.0.0.1"; nb_bytes = pos 8192; filename = codes "a" }

abbrev crash_b : Entry
crash_b = record { ip = codes "10.0.0.2"; nb_bytes = pos 300; filename = codes "b" }

abbrev cells : Cells
cells = (100, crash_a) ∷ ((200, crash_b) ∷ [])

abbrev heap : Nodes
heap a =
    if a == 100
    then some (record { entry = crash_a; next = 200 })
    else if a == 200
    then some (record { entry = crash_b; next = 0 })
    else none

heap-Chain : Chain heap cells
heap-Chain = (omega arith, refl, refl, (omega arith, refl, refl, tt))

-- The client of the second node comes back.
removal_faults : remove_by_ip 5 100 (codes "10.0.0.2") heap ≡ fault
unfolding remove_by_ip remove_loop unlink load free
removal_faults = refl

remove_by_ip-cases_example :
    ((same_bytes crash_a.ip (codes "10.0.0.2") ≡ true)
      × (remove_by_ip 5 100 (codes "10.0.0.2") heap ≡ ok 200 (write_node heap 100 none))
      × Chain (write_node heap 100 none) ((200, crash_b) ∷ []))
    ⊎ ((first_of_ip (codes "10.0.0.2") cells ≡ none)
          × (remove_by_ip 5 100 (codes "10.0.0.2") heap ≡ ok 100 heap)
        ⊎ (same_bytes crash_a.ip (codes "10.0.0.2") ≡ false)
          × (first_of_ip (codes "10.0.0.2") ((200, crash_b) ∷ []) ≢ none)
          × (remove_by_ip 5 100 (codes "10.0.0.2") heap ≡ fault))
remove_by_ip-cases_example =
    remove_by_ip-cases 5 heap (codes "10.0.0.2") 100 crash_a ((200, crash_b) ∷ []) heap-Chain
      (omega arith)

abbrev store : Store
store = record { nodes = heap; head = 100; next_node = 300 }

store-Stocked : Stocked (crash_a ∷ crash_b ∷ []) store
store-Stocked = record {
  cells = cells;
  chain = heap-Chain;
  at_head = refl;
  holds = refl;
  unused = λ a le. ground arith;
  not_null = omega arith;
}

-- A third client is cut, the second is asked for, and the third comes back.
abbrev calls : List Op
calls =
    added (codes "10.0.0.3") (pos 5) (codes "c")
    ∷ asked (codes "10.0.0.2")
    ∷ removed (codes "10.0.0.3")
    ∷ asked (codes "10.0.0.3")
    ∷ []

run-Refines_example :
    (t : Store) × (run 7 calls store
      ≡ ok
          (quiet
            ∷ about (pos 1) (pos 300) (some (codes "b"))
            ∷ quiet
            ∷ about (pos 0) (negsuc 0) none
            ∷ [])
          t)
    × Stocked (crash_a ∷ crash_b ∷ []) t
unfolding replay spec
run-Refines_example = run-Refines 7 calls (crash_a ∷ crash_b ∷ []) store store-Stocked (omega arith)
