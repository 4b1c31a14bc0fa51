-- ===== src/StockIp/Registry.antt =====
-- The list of stock_ip.c as its client sees it: a sequence of entries, the latest first.
pub mod Calls
pub mod Refines
pub mod Kept
use semestre.Base.{
  ℕ, ◌+◌, ◌≤◌, ◌<◌, ◌≡◌, Option, none, some, List, [], ◌∷◌, if◌then◌else◌, Bytes, same_bytes,
}
use semestre.Posix.Int.{ℤ}
use semestre.Posix.Run.{Run, Prog, ok, exited, fault, out_of_fuel, pure, ◌>>=◌}
use semestre.StockIp.{
  Entry, Nodes, Mem, fits, add, contain, bytes, file_name, remove_by_ip, name_of, count_of, flag_of,
}
use semestre.StockIp.Chain.{Cells, head_of, Chain}

-- The calls that the master makes of it.
pub data Op : Type 0 where
  added : Bytes → ℤ → Bytes → Op
  asked : Bytes → Op
  removed : Bytes → Op

-- What `contain`, `bytes` and `file_name` return; the other two calls return nothing.
pub data Reply : Type 0 where
  quiet : Reply
  about : ℤ → ℤ → Option Bytes → Reply

-- The heap, the list's head and what the next `malloc` returns.
pub record Store : Type 0 where
  pub nodes : Nodes
  pub head : ℕ
  pub next_node : ℕ

unfoldable pub stored :
    {A : Type 0} → Store → (A → Nodes → Store) → (A → Reply) → Run Nodes A → Run Store Reply
stored s f g (ok a st) = ok (g a) (f a st)
stored s f g (exited st) = exited s
stored s f g fault = fault
stored s f g (out_of_fuel st) = out_of_fuel s

-- The three queries one after the other.
unfoldable pub ask_all : ℕ → ℕ → Bytes → Mem Reply
ask_all fuel head ip = do
  flag ← contain fuel head ip
  count ← bytes fuel head ip
  name ← file_name fuel head ip
  pure (about flag count name)

unfoldable pub exec : ℕ → Op → Prog Store Reply
unfolding stored ask_all
exec fuel (added ip nb file) s =
    stored s (λ h st. record { nodes = st; head = h; next_node = s.next_node + 1 }) (λ h. quiet)
      (add s.next_node s.head ip nb file s.nodes)
exec fuel (asked ip) s =
    stored s (λ y st. record s { nodes = st }) (λ y. y) (ask_all fuel s.head ip s.nodes)
exec fuel (removed ip) s =
    stored s (λ h st. record s { nodes = st; head = h }) (λ h. quiet)
      (remove_by_ip fuel s.head ip s.nodes)

unfoldable pub run : ℕ → List Op → Prog Store (List Reply)
run fuel [] = pure []
run fuel (op ∷ ops) = do y ← exec fuel op; ys ← run fuel ops; pure (y ∷ ys)

-- The same calls on a list. `none` is a fault: strings that do not fit, and the removal of a client
-- whose first entry is not at the head.
abbrev pub latest : Bytes → List Entry → Option Entry
latest ip [] = none
latest ip (e ∷ es) = if same_bytes e.ip ip then some e else latest ip es

abbrev pub drop_first : Bytes → List Entry → Option (List Entry)
drop_first ip [] = some []
drop_first ip (e ∷ es) =
    if same_bytes e.ip ip
    then some es
    else elim (latest ip es) [ none ↦ some (e ∷ es) | some x ↦ none ]

abbrev pub reply_about : Option Entry → Reply
reply_about e = about (flag_of e) (count_of e) (name_of e)

abbrev pub quietly : Option (List Entry) → Option (Reply × List Entry)
quietly none = none
quietly (some fs) = some (quiet, fs)

unfoldable pub spec : Op → List Entry → Option (Reply × List Entry)
spec (added ip nb file) es =
    if fits ip file
    then some (quiet, record { ip = ip; nb_bytes = nb; filename = file } ∷ es)
    else none
spec (asked ip) es = some (reply_about (latest ip es), es)
spec (removed ip) es = quietly (drop_first ip es)

abbrev pub replied : Reply → Option (List Reply × List Entry) → Option (List Reply × List Entry)
replied y none = none
replied y (some (ys, gs)) = some (y ∷ ys, gs)

abbrev pub followed :
    (List Entry → Option (List Reply × List Entry))
    → Option (Reply × List Entry)
    → Option (List Reply × List Entry)
followed next none = none
followed next (some (y, fs)) = replied y (next fs)

unfoldable pub replay : List Op → List Entry → Option (List Reply × List Entry)
replay [] es = some ([], es)
replay (op ∷ ops) es = followed (replay ops) (spec op es)

abbrev pub entries : Cells → List Entry
entries [] = []
entries ((a, x) ∷ xs) = x ∷ entries xs

-- The heap holds exactly this list, and the addresses that `malloc` is still to give are free.
pub record Stocked (es : List Entry) (s : Store) : Type 0 where
  pub cells : Cells
  pub chain : Chain s.nodes cells
  pub at_head : s.head ≡ head_of cells
  pub holds : entries cells ≡ es
  pub unused : (a : ℕ) → s.next_node ≤ a → s.nodes a ≡ none
  pub not_null : 0 < s.next_node
