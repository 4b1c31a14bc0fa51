-- ===== src/Master/Tables.antt =====
-- The scans of `busy` and `fd_slave`.
use semestre.Base.{
  ℕ, zero, suc, ◌+◌, ◌≤◌, ◌≡◌, refl, ◌⊎◌, inl, inr, Bool, true, false, List, [], ◌∷◌, arith, ltb,
  ap, ◌∙◌, Bool-cases,
}
use semestre.Posix.Int.{pos, negsuc}
use semestre.Master.{slave_not_busy_from, slave_not_busy, fd_max_loop, fd_max}

abbrev pub AllBusy : List Bool → Type 0
AllBusy [] = Unit {0}
AllBusy (b ∷ bs) = (b ≡ true) × AllBusy bs

-- The entry at `i` is the first that is free.
abbrev pub FirstFree : ℕ → List Bool → Type 0
FirstFree i [] = ⊥
FirstFree zero (b ∷ bs) = b ≡ false
FirstFree (suc i) (b ∷ bs) = (b ≡ true) × FirstFree i bs

slave_not_busy_from-cases :
    (i : ℕ) (busy : List Bool)
    → (AllBusy busy × (slave_not_busy_from i busy ≡ negsuc 0))
      ⊎ ((k : ℕ) × FirstFree k busy × (slave_not_busy_from i busy ≡ pos (i + k)))
unfolding slave_not_busy_from
slave_not_busy_from-cases i [] = inl (tt, refl)
slave_not_busy_from-cases i (false ∷ bs) = inr (0, refl, ap pos (omega arith))
slave_not_busy_from-cases i (true ∷ bs) = elim (slave_not_busy_from-cases (i + 1) bs) [
  | inl (all, e) ↦ inl ((refl, all), e)
  | inr (k, first, e) ↦ inr (suc k, (refl, first), e ∙ ap pos (omega arith))
]

-- `slave_not_busy` is -1 exactly when every slave is busy, and otherwise the first free slave.
pub slave_not_busy-cases :
    (busy : List Bool)
    → (AllBusy busy × (slave_not_busy busy ≡ negsuc 0))
      ⊎ ((k : ℕ) × FirstFree k busy × (slave_not_busy busy ≡ pos k))
unfolding slave_not_busy
slave_not_busy-cases busy = elim (slave_not_busy_from-cases 0 busy) [
  | inl all ↦ inl all
  | inr (k, first, e) ↦ inr (k, first, e ∙ ap pos (omega arith))
]

abbrev pub AllBelow : ℕ → List ℕ → Type 0
AllBelow m [] = Unit {0}
AllBelow m (a ∷ rest) = (a ≤ m) × AllBelow m rest

abbrev pub OneOf : ℕ → List ℕ → Type 0
OneOf m [] = ⊥
OneOf m (a ∷ rest) = (m ≡ a) ⊎ OneOf m rest

AllBelow-mono : (l m : ℕ) (fds : List ℕ) → l ≤ m → AllBelow l fds → AllBelow m fds
AllBelow-mono l m [] h all = tt
AllBelow-mono l m (a ∷ rest) h all = (omega arith, AllBelow-mono l m rest h all.1)

-- The scan from `a` on.
fd_max_loop-max :
    (a : ℕ) (fds : List ℕ)
    → (m : ℕ) × (fd_max_loop (pos a) fds ≡ pos m)
      × (a ≤ m)
      × AllBelow m fds
      × ((m ≡ a) ⊎ OneOf m fds)
unfolding fd_max_loop
fd_max_loop-max a [] = (a, refl, omega arith, tt, inl refl)
fd_max_loop-max a (b ∷ fds) = elim (Bool-cases (ltb a b)) [
  | inl up ↦
      let (m, e, le, all, one) = fd_max_loop-max b fds in
      (m, rw up e, ground arith, (le, all), inr one)
  | inr down ↦
      let (m, e, le, all, one) = fd_max_loop-max a fds in
      (
        m,
        rw down e,
        le,
        (ground arith, all),
        elim one [ inl same ↦ inl same | inr o ↦ inr (inr o) ],
      )
]

-- `fd_max` is a descriptor of the pipe or of a slave, and none of them is greater: `select` is given
-- one more, so it looks at them all.
fd_max-greatest :
    (tube : ℕ) (fds : List ℕ)
    → (m : ℕ) × (fd_max tube fds ≡ pos m) × AllBelow m (tube ∷ fds) × OneOf m (tube ∷ fds)
unfolding fd_max fd_max_loop
fd_max-greatest tube [] = (tube, refl, (omega arith, tt), inl refl)
fd_max-greatest tube (b ∷ fds) =
    let (m, e, le, all, one) = fd_max_loop-max b fds in
    elim (Bool-cases (ltb m tube)) [
      | inl up ↦ (
        tube,
        rw (e, up),
        (omega arith, (ground arith, AllBelow-mono m tube fds (ground arith) all)),
        inl refl,
      )
      | inr down ↦ (m, rw (e, down), (ground arith, (le, all)), inr one)
    ]
