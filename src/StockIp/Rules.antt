-- ===== src/StockIp/Rules.antt =====
-- The queries as parts of a run that keeps a property of the heap, whatever it is.
use semestre.Base.{ℕ, zero, suc, inl, inr, Bytes}
use semestre.Posix.Keeps.{returned, faulted, Keeps, keeps_rules}
use semestre.StockIp.{Nodes, load, find_from, contain, bytes, file_name}
use semestre.StockIp.Update.{load-cases}

-- The three queries change no node.
module _ {Q : Nodes → Type 0} where
  Keeps-load : (p : ℕ) → Keeps Q (load p)
  Keeps-load p = record {
    at = λ st h. elim (load-cases p st) [ inl e ↦ rw e faulted | inr (n, e) ↦ rw e (returned h) ];
  }

  Keeps-find_from : (fuel current : ℕ) (ip : Bytes) → Keeps Q (find_from fuel current ip)
  unfolding find_from
  Keeps-find_from zero current ip = search keeps_rules
  Keeps-find_from (suc fuel) current ip =
      search (keeps_rules, Keeps-load, Keeps-find_from fuel) depth 10

  pub Keeps-contain : (fuel head : ℕ) (ip : Bytes) → Keeps Q (contain fuel head ip)
  unfolding contain
  Keeps-contain fuel head ip = search (keeps_rules, Keeps-find_from)

  pub Keeps-bytes : (fuel head : ℕ) (ip : Bytes) → Keeps Q (bytes fuel head ip)
  unfolding bytes
  Keeps-bytes fuel head ip = search (keeps_rules, Keeps-find_from)

  pub Keeps-file_name : (fuel head : ℕ) (ip : Bytes) → Keeps Q (file_name fuel head ip)
  unfolding file_name
  Keeps-file_name fuel head ip = search (keeps_rules, Keeps-find_from)
