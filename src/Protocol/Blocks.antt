-- ===== src/Protocol/Blocks.antt =====
-- A file cut into the blocks of one `read` each, and blocks as what arrives on a socket.
use semestre.Base.{
  ℕ, zero, suc, ◌+◌, ◌-◌, ◌*◌, ◌/◌, ◌≤◌, ◌<◌, ◌≡◌, refl, ap, ◌∙◌, List, [], ◌∷◌, ◌++◌, arith, Bytes,
  length, take, drop, drop-drop, drop_all, length-take, length-drop, take-append-drop-length, min,
}
use semestre.Posix.Int.{encode_int}
use semestre.Posix.Kernel.{Arrival, chunk}
use semestre.Protocol.{max_line, ok_code}

abbrev pub blocks : List Bytes → List Arrival → List Arrival
blocks [] q = q
blocks (b ∷ bs) q = chunk b ∷ blocks bs q

abbrev pub joined : List Bytes → Bytes
joined [] = []
joined (b ∷ bs) = b ++ joined bs

-- No block is empty, and none is longer than the buffer.
abbrev pub AllFit : List Bytes → Type 0
AllFit [] = Unit {0}
AllFit (b ∷ bs) = (0 < length b) × (length b ≤ max_line) × AllFit bs

-- `m` times OK.
abbrev pub oks : ℕ → List Bytes
oks zero = []
oks (suc m) = encode_int ok_code ∷ oks m

-- What one round reads and writes.
abbrev pub block : ℕ → Bytes → Bytes
block k c = take max_line (drop k c)

pub length-block : (k : ℕ) (c : Bytes) → length (block k c) ≡ min max_line (length c - k)
length-block k c = omega (arith, length-take max_line (drop k c), length-drop k c)

pub block-rest : (k : ℕ) (c : Bytes) → block k c ++ drop (k + length (block k c)) c ≡ drop k c
block-rest k c =
    rw (← drop-drop (length (block k c)) k c) (take-append-drop-length max_line (drop k c))

-- The number of blocks that `n` bytes take.
abbrev pub rounds : ℕ → ℕ
rounds n = (n + 8191) / max_line

-- The next `m` blocks of `c` from byte `k` on, and all of them.
abbrev pub cut_from : ℕ → ℕ → Bytes → List Bytes
cut_from zero k c = []
cut_from (suc m) k c = block k c ∷ cut_from m (k + length (block k c)) c

abbrev pub all_from : ℕ → Bytes → List Bytes
all_from k c = cut_from (rounds (length c - k)) k c

pub length-cut_from : (m k : ℕ) (c : Bytes) → length (cut_from m k c) ≡ m
length-cut_from zero k c = refl
length-cut_from (suc m) k c = ap suc (length-cut_from m (k + length (block k c)) c)

joined-cut_from :
    (m k : ℕ) (c : Bytes) → length c - k ≤ m * max_line → joined (cut_from m k c) ≡ drop k c
joined-cut_from zero k c h = let none_left = drop_all k c (omega arith) in rw none_left
joined-cut_from (suc m) k c h =
    ap (◌++◌ (block k c))
      (joined-cut_from m (k + length (block k c)) c (omega (arith, length-block k c)))
    ∙ block-rest k c

cut_from-AllFit :
    (m k : ℕ) (c : Bytes) → m * max_line < length c - k + max_line → AllFit (cut_from m k c)
cut_from-AllFit zero k c h = tt
cut_from-AllFit (suc m) k c h = (
  omega (arith, length-block k c),
  omega (arith, length-block k c),
  cut_from-AllFit m (k + length (block k c)) c (omega (arith, length-block k c)),
)

module _ (k : ℕ) (c : Bytes) where
  pub length-all_from : length (all_from k c) ≡ rounds (length c - k)
  length-all_from = length-cut_from (rounds (length c - k)) k c

  pub joined-all_from : joined (all_from k c) ≡ drop k c
  joined-all_from = joined-cut_from (rounds (length c - k)) k c (omega arith)

  pub all_from-AllFit : AllFit (all_from k c)
  all_from-AllFit = cut_from-AllFit (rounds (length c - k)) k c (omega arith)
