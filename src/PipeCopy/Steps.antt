-- ===== src/PipeCopy/Steps.antt =====
-- One step keeps what is on its way from the input to the screen in order.
use semestre.Base.{
  ◌||◌, ℕ, suc, ◌-◌, ◌≡◌, refl, sym, ap, ◌∙◌, min, Bool, true, false, [], ◌∷◌, ◌++◌, Bytes, length,
  take, drop, append_assoc, arith, take-append-drop, drop_all,
}
use semestre.PipeCopy.{
  Father, opening, reading, waiting, gone, writing, Child, beginning, taking, done, showing,
  father_has, father_left, father_write, father_wait, father_step, maxline, child_has, child_step,
}
use semestre.PipeCopy.Way.{
  of_father, of_child, in_loop, Ordered, at, some_taken, still_going, not_gone, regroup,
}

module _ (text : Bytes) (size : ℕ) where
  father_has-Ordered :
      (bs rest : Bytes) (c : Child) (fe ce : Bool) (p o : Bytes)
      → (bs ≡ [] → rest ≡ [])
      → Ordered text (at reading c fe ce (bs ++ rest) p o)
      → Ordered text (father_has bs (at reading c fe ce rest p o))
  unfolding father_has
  father_has-Ordered [] rest c fe ce p o none_left h = record {
    all = h.all;
    father_open = refl;
    child_open = h.child_open;
    all_read = none_left refl;
    all_taken = still_going c false p p h.all_taken;
    ends_last = tt;
  }
  father_has-Ordered (b ∷ bs) rest c fe ce p o none_left h = record {
    all = h.all;
    father_open = h.father_open;
    child_open = h.child_open;
    all_read = tt;
    all_taken = h.all_taken;
    ends_last = tt;
  }

  father_left-Ordered :
      (moved rest bs : Bytes) (c : Child) (fe ce : Bool) (i p o : Bytes)
      → moved ++ rest ≡ bs
      → Ordered text (at (writing bs) c fe ce i p o)
      → Ordered text (father_left rest (at (writing bs) c fe ce i (p ++ moved) o))
  unfolding father_left
  father_left-Ordered moved [] bs c fe ce i p o e h = record {
    all = ap (λ x. o ++ (of_child c ++ x)) (regroup p moved [] i) ∙ (rw e h.all);
    father_open = h.father_open;
    child_open = h.child_open;
    all_read = tt;
    all_taken = still_going c true p (p ++ moved) h.all_taken;
    ends_last = tt;
  }
  father_left-Ordered moved (b ∷ rest) bs c fe ce i p o e h = record {
    all = ap (λ x. o ++ (of_child c ++ x)) (regroup p moved (b ∷ rest) i) ∙ (rw e h.all);
    father_open = h.father_open;
    child_open = h.child_open;
    all_read = tt;
    all_taken = still_going c true p (p ++ moved) h.all_taken;
    ends_last = tt;
  }

  pub father_at-Ordered :
      (k : ℕ) (f : Father) (c : Child) (fe ce : Bool) (i p o : Bytes)
      → Ordered text (at f c fe ce i p o)
      → Ordered text (father_step size k f (at f c fe ce i p o))
  unfolding father_step father_write
  father_at-Ordered k opening c fe ce i p o h = record {
    all = h.all;
    father_open = h.father_open;
    child_open = h.child_open;
    all_read = tt;
    all_taken = h.all_taken;
    ends_last = tt;
  }
  father_at-Ordered k reading c fe ce i p o h =
      let n = min (suc k) maxline in
      father_has-Ordered (take n i) (drop n i) c fe ce p o
        (λ e. rw (some_taken k i e) (drop_all n [] (omega arith))) (rw (take-append-drop n i) h)
  father_at-Ordered k (writing bs) c fe ce i p o h =
      let n = min (suc k) (size - length p) in
      father_left-Ordered (take n bs) (drop n bs) bs c fe ce i p o (take-append-drop n bs) h
  father_at-Ordered k waiting c fe ce i p o h = waits c h
    where
      waits :
          (d : Child)
          → Ordered text (at waiting d fe ce i p o)
          → Ordered text (father_wait d (at waiting d fe ce i p o))
      waits done g = record {
        all = g.all;
        father_open = g.father_open;
        child_open = g.child_open;
        all_read = g.all_read;
        all_taken = g.all_taken;
        ends_last = refl;
      }
      waits beginning g = g
      waits taking g = g
      waits (showing bs) g = g
  father_at-Ordered k gone c fe ce i p o h = h

  child_has-Ordered :
      (f : Father) (bs rest : Bytes) (fe ce : Bool) (i o : Bytes)
      → (bs ≡ [] → rest ≡ [])
      → fe ≡ in_loop f
      → ce ≡ false
      → Ordered text (at f taking fe ce i (bs ++ rest) o)
      → Ordered text (child_has (fe || ce) bs (at f taking fe ce i rest o))
  unfolding child_has
  child_has-Ordered f [] rest true ce i o none_left is_open closed h = h
  child_has-Ordered f [] rest false true i o none_left is_open closed h = cc
  child_has-Ordered f [] rest false false i o none_left is_open closed h = record {
    all = h.all;
    father_open = is_open;
    child_open = refl;
    all_read = h.all_read;
    all_taken = (sym is_open, none_left refl);
    ends_last = not_gone f taking done (λ e. cc) h.ends_last;
  }
  child_has-Ordered f (b ∷ bs) rest fe ce i o none_left is_open closed h = record {
    all = ap (◌++◌ o) (sym (append_assoc (b ∷ bs) rest (of_father f ++ i))) ∙ h.all;
    father_open = h.father_open;
    child_open = h.child_open;
    all_read = h.all_read;
    all_taken = tt;
    ends_last = not_gone f taking (showing (b ∷ bs)) (λ e. cc) h.ends_last;
  }

  pub child_at-Ordered :
      (k : ℕ) (f : Father) (c : Child) (fe ce : Bool) (i p o : Bytes)
      → Ordered text (at f c fe ce i p o)
      → Ordered text (child_step k c (at f c fe ce i p o))
  unfolding child_step
  child_at-Ordered k f beginning fe ce i p o h = record {
    all = h.all;
    father_open = h.father_open;
    child_open = refl;
    all_read = h.all_read;
    all_taken = tt;
    ends_last = not_gone f beginning taking (λ e. cc) h.ends_last;
  }
  child_at-Ordered k f taking fe ce i p o h =
      let n = min (suc k) maxline in
      child_has-Ordered f (take n p) (drop n p) fe ce i o
        (λ e. rw (some_taken k p e) (drop_all n [] (omega arith))) h.father_open h.child_open
        (rw (take-append-drop n p) h)
  child_at-Ordered k f (showing bs) fe ce i p o h = record {
    all = append_assoc o bs (p ++ (of_father f ++ i)) ∙ h.all;
    father_open = h.father_open;
    child_open = h.child_open;
    all_read = h.all_read;
    all_taken = tt;
    ends_last = not_gone f (showing bs) taking (λ e. cc) h.ends_last;
  }
  child_at-Ordered k f done fe ce i p o h = h
