-- ===== src/StockIp.antt =====
-- SR/projet_ftp/stock_ip.c and stock_ip.h: the master's list of transfers that a crash has cut, a
-- linked list in the C heap. A fault is an access through NULL or to a freed node, or a `strcpy`
-- beyond the array. Loops have a bound on their rounds; `print_list` only prints.
pub mod Chain
pub mod Lookup
pub mod Update
pub mod Registry
pub mod Rules
mod Examples
use semestre.Base.{
  ℕ, zero, suc, Bool, true, false, Option, none, some, List, [], ◌∷◌, ltb, ◌==◌, if◌then◌else◌,
  Bytes, length, same_bytes,
}
use semestre.Posix.Int.{ℤ, pos, negsuc}
use semestre.Posix.Run.{Prog, ok, fault, out_of_fuel, pure, crash, ◌>>=◌, ◌>>◌}
use semestre.Protocol.{inet_addrstrlen, max_line}

-- The data of a node: strings are their bytes before the NUL.
pub record Entry : Type 0 where
  pub ip : Bytes
  pub nb_bytes : ℤ
  pub filename : Bytes

-- `struct node`.
pub record Node : Type 0 where
  pub entry : Entry
  pub next : ℕ

-- MAX_FILENAME
abbrev pub max_filename : ℕ
max_filename = 8192

abbrev pub null : ℕ
null = 0

abbrev pub Nodes : Type 0
Nodes = ℕ → Option Node

abbrev pub Mem : Type 0 → Type 0
Mem A = Prog Nodes A

abbrev pub write_node : Nodes → ℕ → Option Node → Nodes
write_node st a n = λ b. if b == a then n else st b

load_cell : Option Node → Mem Node
load_cell none st = fault
load_cell (some n) st = ok n st

-- `*p`
unfoldable pub load : ℕ → Mem Node
unfolding load_cell
load p st = if p == null then fault else load_cell (st p) st

abbrev pub put_node : ℕ → Option Node → Mem (Unit {0})
put_node a n st = ok tt (write_node st a n)

unfoldable pub free : ℕ → Mem (Unit {0})
free p = load p >>= λ _. put_node p none

-- Both strings fit their arrays with the final NUL.
abbrev pub fits : Bytes → Bytes → Bool
fits ip file = if ltb (length ip) inet_addrstrlen then ltb (length file) max_filename else false

-- `fresh` is what `malloc` returns; the result is the new `*head`.
unfoldable pub add : ℕ → ℕ → Bytes → ℤ → Bytes → Mem ℕ
add fresh head val_ip nb file =
    if fresh == null
    then crash
    else if fits val_ip file
    then (do
      put_node fresh (
          some (record {
            entry = record { ip = val_ip; nb_bytes = nb; filename = file };
            next = head;
          }))
      pure fresh)
    else crash

-- With an empty list it prints an error and goes on to read through NULL.
unfoldable pub remove_first : ℕ → Mem ℕ
remove_first head = do n ← load head; free head; pure n.next

-- The two statements under `if (!strcmp(current->ip, val_ip))`.
unfoldable pub unlink : Bool → ℕ → ℕ → Mem (Unit {0})
unlink false previous current = pure tt
unlink true previous current = do
  n ← load current
  p ← load previous
  put_node previous (some (record p { next = n.next }))
  free current

-- `while (current)`: after the `if` the loop reads `current->next`.
unfoldable pub remove_loop : ℕ → ℕ → ℕ → Bytes → Mem (Unit {0})
remove_loop zero previous current val_ip = λ st. out_of_fuel st
remove_loop (suc fuel) previous current val_ip =
    let round = load current >>= λ n.
    unlink (same_bytes n.entry.ip val_ip) previous current
    >> (load current >>= λ n'. remove_loop fuel current n'.next val_ip) in
    if current == null then pure tt else round

unfoldable pub remove_by_ip : ℕ → ℕ → Bytes → Mem ℕ
remove_by_ip fuel head val_ip = if head == null then pure head else do
  n ← load head
  if same_bytes n.entry.ip val_ip
      then remove_first head
      else (do remove_loop fuel n.next n.next val_ip; pure head)

-- The walk that `file_name`, `bytes` and `contain` share: the head first, then `while (current)`.
unfoldable pub find_from : ℕ → ℕ → Bytes → Mem (Option Entry)
find_from zero current val_ip = λ st. out_of_fuel st
find_from (suc fuel) current val_ip =
    let round = load current >>= λ n.
    let rest = find_from fuel n.next val_ip in
    if same_bytes n.entry.ip val_ip then pure (some n.entry) else rest in
    if current == null then pure none else round

abbrev pub name_of : Option Entry → Option Bytes
name_of none = none
name_of (some e) = some e.filename

abbrev pub count_of : Option Entry → ℤ
count_of none = negsuc 0
count_of (some e) = e.nb_bytes

abbrev pub flag_of : Option Entry → ℤ
flag_of none = pos 0
flag_of (some e) = pos 1

-- NULL is `none`.
unfoldable pub file_name : ℕ → ℕ → Bytes → Mem (Option Bytes)
file_name fuel head val_ip = do e ← find_from fuel head val_ip; pure (name_of e)

unfoldable pub bytes : ℕ → ℕ → Bytes → Mem ℤ
bytes fuel head val_ip = do e ← find_from fuel head val_ip; pure (count_of e)

unfoldable pub contain : ℕ → ℕ → Bytes → Mem ℤ
contain fuel head val_ip = do e ← find_from fuel head val_ip; pure (flag_of e)
