-- ===== src/Posix/WriteAt.antt =====
-- Writes that follow one another in a file.
use semestre.Base.{
  ℕ, zero, suc, ◌+◌, ◌-◌, ◌≡◌, refl, ap, sym, ◌∙◌, [], ◌∷◌, ◌++◌, arith, Bytes, length, take, drop,
  drop-drop, length-append, length-take, append_assoc, ◌≤◌, take-append-drop, drop_all, length-drop,
  append-nil,
}
use semestre.Posix.Files.{zeros, write_at}

take-append-front : (p d : Bytes) → take (length p) (p ++ d) ≡ p
unfolding take
take-append-front [] d = refl
take-append-front (x ∷ p) d = ap (◌∷◌ x) (take-append-front p d)

drop-append-front : (p d : Bytes) → drop (length p) (p ++ d) ≡ d
unfolding drop
drop-append-front [] d = refl
drop-append-front (x ∷ p) d = drop-append-front p d

length-zeros : (n : ℕ) → length (zeros n) ≡ n
unfolding zeros
length-zeros zero = refl
length-zeros (suc n) = ap suc (length-zeros n)

-- A write at the end of a known front.
write_at-front : (p d b : Bytes) → write_at (p ++ d) (length p) b ≡ p ++ (b ++ drop (length b) d)
unfolding write_at zeros
write_at-front p d b =
    let inside : length p - length (p ++ d) ≡ 0 = omega (arith, length-append p d) in
    rw
      (
        take-append-front p d,
        inside,
        ← drop-drop (length b) (length p) (p ++ d),
        drop-append-front p d,
      )
      refl

-- The file before the bytes that a write puts down.
front : Bytes → ℕ → Bytes
front c k = take k c ++ zeros (k - length c)

length-front : (c : Bytes) (k : ℕ) → length (front c k) ≡ k
unfolding front
length-front c k = omega (
  arith,
  length-append (take k c) (zeros (k - length c)),
  length-take k c,
  length-zeros (k - length c),
)

write_at-as_front :
    (c : Bytes) (k : ℕ) (a : Bytes) → write_at c k a ≡ front c k ++ (a ++ drop (k + length a) c)
unfolding write_at front
write_at-as_front c k a = sym (append_assoc (take k c) (zeros (k - length c)) _)

-- Two writes, the second where the first has ended, are one write.
pub write_at-then :
    (c : Bytes) (k : ℕ) (a b : Bytes)
    → write_at (write_at c k a) (k + length a) b ≡ write_at c k (a ++ b)
write_at-then c k a b =
    let f = front c k in
    let d = drop (k + length a) c in
    let end : length (f ++ a) ≡ k + length a = omega (arith, length-append f a, length-front c k) in
    let total : k + length a + length b ≡ k + length (a ++ b) = omega (arith, length-append a b) in
    ap (λ x. write_at x (k + length a) b) (write_at-as_front c k a ∙ sym (append_assoc f a d))
    ∙ ap (λ n. write_at ((f ++ a) ++ d) n b) (sym end)
    ∙ write_at-front (f ++ a) d b
    ∙ ap (λ x. (f ++ a) ++ (b ++ x))
        (drop-drop (length b) (k + length a) c ∙ ap (λ n. drop n c) total)
    ∙ append_assoc f a _
    ∙ ap (◌++◌ f) (sym (append_assoc a b _))
    ∙ sym (write_at-as_front c k (a ++ b))

pub length-write_at : (c : Bytes) (k : ℕ) (a : Bytes) → k + length a ≤ length (write_at c k a)
length-write_at c k a = rw (write_at-as_front c k a) (
    omega (
      arith,
      length-front c k,
      length-append (front c k) (a ++ drop (k + length a) c),
      length-append a (drop (k + length a) c),
    ))

pub write_at-nil : (c : Bytes) (k : ℕ) → k ≤ length c → write_at c k [] ≡ c
unfolding write_at zeros
write_at-nil c k h =
    let inside : k - length c ≡ 0 = omega arith in
    let same : k + 0 ≡ k = omega arith in rw (inside, same) (take-append-drop k c)

take-take : (r e : ℕ) (c : Bytes) → r ≤ e → take r (take e c) ≡ take r c
unfolding take
take-take zero e c h = refl
take-take (suc r) zero c h = absurd (omega arith)
take-take (suc r) (suc e) [] h = refl
take-take (suc r) (suc e) (x ∷ c) h = ap (◌∷◌ x) (take-take r e c (omega arith))

-- The rest of a file, written over its first `e` bytes from any of them on, makes it whole.
pub write_at-completes :
    (c : Bytes) (r e : ℕ) → r ≤ e → e ≤ length c → write_at (take e c) r (drop r c) ≡ c
unfolding write_at zeros
write_at-completes c r e h within =
    let inside : r - length (take e c) ≡ 0 = omega (arith, length-take e c) in
    let none_left =
      drop_all (r + length (drop r c)) (take e c)
        (omega (arith, length-take e c, length-drop r c)) in
    rw (inside, none_left, take-take r e c h, append-nil (drop r c)) (take-append-drop r c)

pub write_at-start : (c a : Bytes) → write_at c 0 a ≡ a ++ drop (length a) c
unfolding write_at zeros take
write_at-start c a =
    let inside : 0 - length c ≡ 0 = omega arith in
    let from : 0 + length a ≡ length a = omega arith in rw (inside, from) refl
