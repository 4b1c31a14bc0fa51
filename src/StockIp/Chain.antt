-- ===== src/StockIp/Chain.antt =====
-- The list of entries that the nodes of the heap stand for.
use semestre.Base.{
  ℕ, ◌≡◌, ◌≢◌, refl, Bool, false, ◌||◌, Option, none, some, List, [], ◌∷◌, arith, ◌==◌,
  if◌then◌else◌, Bytes, same_bytes,
}
use semestre.StockIp.{Entry, Node, Nodes, null, write_node}

-- Each entry with the address of its node, from the head on.
abbrev pub Cells : Type 0
Cells = List (ℕ × Entry)

abbrev pub head_of : Cells → ℕ
head_of [] = null
head_of ((a, x) ∷ xs) = a

abbrev pub used : ℕ → Cells → Bool
used b [] = false
used b ((a, x) ∷ xs) = (b == a) || used b xs

-- The nodes lie at distinct addresses, and each points to the next one.
abbrev pub Chain : Nodes → Cells → Type 0
Chain st [] = Unit {0}
Chain st ((a, x) ∷ xs) =
    (a ≢ null)
    × (st a ≡ some (record { entry = x; next = head_of xs }))
    × (used a xs ≡ false)
    × Chain st xs

-- The first entry of a client.
abbrev pub first_of_ip : Bytes → Cells → Option Entry
first_of_ip ip [] = none
first_of_ip ip ((a, x) ∷ xs) = if same_bytes x.ip ip then some x else first_of_ip ip xs

pub Chain-write_node :
    (st : Nodes) (b : ℕ) (n : Option Node) (xs : Cells)
    → used b xs ≡ false
    → Chain st xs
    → Chain (write_node st b n) xs
Chain-write_node st b n [] out c = tt
Chain-write_node st b n ((a, x) ∷ xs) out c =
    (c.0, ground arith, c.2, Chain-write_node st b n xs (ground arith) c.3)

-- An address with no node is not in use.
pub used-none : (st : Nodes) (b : ℕ) (xs : Cells) → st b ≡ none → Chain st xs → used b xs ≡ false
used-none st b [] e c = refl
used-none st b ((a, x) ∷ xs) e c = ground (arith, used-none st b xs e c.3)
