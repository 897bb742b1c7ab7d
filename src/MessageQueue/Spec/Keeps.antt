-- ===== src/MessageQueue/Spec/Keeps.antt =====
-- The answers of the specification: what becomes of the connections, and how many messages are
-- left.
use native.Mathlib.Decide.{dec_lt, ℕ_discrete}
use operating_system_whw.Common.{
  ◌⊎◌, inl, inr, ltb, ltb-true, ltb-false, eq_true, eq_false, ℕ, ◌+◌, ◌/◌, ◌≤◌, ◌<◌, ◌≡◌, refl, ap,
  ◌∙◌, Bool, true, false, List, [], ◌∷◌, ◌++◌, map, arith, length, ◌==◌, if◌then◌else◌,
  length-append,
}
use operating_system_whw.Heap.{Content}
use operating_system_whw.MessageQueue.Types.{
  drop, success, SchedPolicy, invalid, block, drop_tail, drop_head, drop_random,
}
use operating_system_whw.MessageQueue.Drop.Marks.{marked, kept, marks, length-kept}
use operating_system_whw.MessageQueue.Spec.{Entry, Answer, sleeps, answers, put_full, put}

-- How often the content occurs.
abbrev pub count : Content → List Content → ℕ
count v [] = 0
count v (x ∷ xs) = (if v == x then 1 else 0) + count v xs

pub count-append :
    (v : Content) (xs ys : List Content) → count v (xs ++ ys) ≡ count v xs + count v ys
count-append v [] ys = omega arith
count-append v (x ∷ xs) ys = omega (arith, count-append v xs ys)

abbrev pub contents : List Entry → List Content
contents ys = map (λ (y : Entry). y.0) ys

contents-append : (xs ys : List Entry) → contents (xs ++ ys) ≡ contents xs ++ contents ys
contents-append [] ys = refl
contents-append (x ∷ xs) ys = ap (λ t. x.0 ∷ t) (contents-append xs ys)

count-kept :
    (v : Content) (bs : List Bool) (xs : List Entry)
    → count v (contents (kept bs xs)) + count v (contents (marked bs xs)) ≡ count v (contents xs)
unfolding kept marked
count-kept v [] xs = omega arith
count-kept v (b ∷ bs) [] = refl
count-kept v (true ∷ bs) (x ∷ xs) = omega (arith, count-kept v bs xs)
count-kept v (false ∷ bs) (x ∷ xs) = omega (arith, count-kept v bs xs)

-- Every content that was in the queue or came with the new message is in the queue then or was
-- dropped, as often as before.
abbrev pub Conserves : List Entry → Entry → Answer → Type 0
Conserves xs x (sleeps resume) = Unit {0}
Conserves xs x (answers code ys out) =
    (v : Content) → count v (contents ys) + count v out ≡ count v (contents xs) + count v (x.0 ∷ [])

pub count-added :
    (v : Content) (xs : List Entry) (x : Entry)
    → count v (contents (xs ++ (x ∷ []))) ≡ count v (contents xs) + count v (x.0 ∷ [])
count-added v xs x =
    ap (count v) (contents-append xs (x ∷ [])) ∙ count-append v (contents xs) (x.0 ∷ [])

-- What holds of both branches holds of a test.
on_both {ℓ} : (P : Answer → Type ℓ) (b : Bool) {p q : Answer} → P p → P q → P (if b then p else q)
on_both P true holds other = holds
on_both P false other holds = holds

put_full-Conserves :
    (capacity : ℕ) (flags : List Bool) (x : Entry) (policy : SchedPolicy) (xs : List Entry)
    → Conserves xs x (put_full capacity flags x policy xs)
unfolding put_full
put_full-Conserves capacity flags x invalid xs = tt
put_full-Conserves capacity flags x block xs = tt
put_full-Conserves capacity flags x drop_tail xs = λ v. refl
put_full-Conserves capacity flags x drop_head [] = λ v. omega arith
put_full-Conserves capacity flags x drop_head (y ∷ xs) = λ v. omega (arith, count-added v xs x)
put_full-Conserves capacity flags x drop_random xs =
    on_both (Conserves xs x) (ltb capacity 4) tt
      λ v. omega (arith, count-added v (kept flags xs) x, count-kept v flags xs)

-- No answer of the specification loses or invents a connection.
pub put-Conserves :
    (capacity : ℕ) (flags : List Bool) (x : Entry) (policy : SchedPolicy) (xs : List Entry)
    → Conserves xs x (put capacity flags x policy xs)
unfolding put
put-Conserves capacity flags x policy xs =
    on_both (Conserves xs x) (length xs == capacity) (put_full-Conserves capacity flags x policy xs)
      λ v. omega (arith, count-added v xs x)

-- The code is MQ_DROP, or MQ_SUCCESS with nothing dropped.
abbrev pub Coded : Answer → Type 0
Coded (sleeps resume) = Unit {0}
Coded (answers code ys out) = (code ≡ drop) ⊎ ((code ≡ success) × (out ≡ []))

put_full-Coded :
    (capacity : ℕ) (flags : List Bool) (x : Entry) (policy : SchedPolicy) (xs : List Entry)
    → Coded (put_full capacity flags x policy xs)
unfolding put_full
put_full-Coded capacity flags x invalid xs = tt
put_full-Coded capacity flags x block xs = tt
put_full-Coded capacity flags x drop_tail xs = inl refl
put_full-Coded capacity flags x drop_head [] = inl refl
put_full-Coded capacity flags x drop_head (y ∷ xs) = inl refl
put_full-Coded capacity flags x drop_random xs = on_both Coded (ltb capacity 4) tt (inl refl)

-- What the specification drops it answers with MQ_DROP.
pub put-Coded :
    (capacity : ℕ) (flags : List Bool) (x : Entry) (policy : SchedPolicy) (xs : List Entry)
    → Coded (put capacity flags x policy xs)
unfolding put
put-Coded capacity flags x policy xs =
    on_both Coded (length xs == capacity) (put_full-Coded capacity flags x policy xs)
      (inr (refl, refl))

-- The messages that an answer leaves are no more than the capacity.
abbrev pub Fits : ℕ → Answer → Type 0
Fits capacity (sleeps resume) = Unit {0}
Fits capacity (answers code ys out) = length ys ≤ capacity

-- Marks of a quarter of the capacity, if `random` sweeps.
abbrev pub SweepMarks : ℕ → List Bool → SchedPolicy → List Entry → Type 0
SweepMarks capacity flags policy xs =
    policy ≡ drop_random → 4 ≤ capacity → (length flags ≡ length xs) × (marks flags ≡ capacity / 4)

random-Fits :
    (capacity : ℕ) (flags : List Bool) (x : Entry) (xs : List Entry)
    → length xs ≡ capacity
    → SweepMarks capacity flags drop_random xs
    → Fits capacity (put_full capacity flags x drop_random xs)
unfolding put_full
random-Fits capacity flags x xs full sweep = elim (dec_lt capacity 4) [
  | yes small ↦ rw (ltb-true small) tt
  | no large ↦
      let (one_each, quarter) = sweep refl (omega arith) in
      let le : 4 ≤ capacity = omega arith in
      rw (ltb-false le)
        (omega (arith, length-append (kept flags xs) (x ∷ []), length-kept flags xs one_each))
]

put_full-Fits :
    (capacity : ℕ) (flags : List Bool) (x : Entry) (policy : SchedPolicy) (xs : List Entry)
    → length xs ≡ capacity
    → 0 < capacity
    → SweepMarks capacity flags policy xs
    → Fits capacity (put_full capacity flags x policy xs)
unfolding put_full
put_full-Fits capacity flags x invalid xs full pos sweep = tt
put_full-Fits capacity flags x block xs full pos sweep = tt
put_full-Fits capacity flags x drop_tail xs full pos sweep = omega arith
put_full-Fits capacity flags x drop_head [] full pos sweep = omega arith
put_full-Fits capacity flags x drop_head (y ∷ xs) full pos sweep =
    omega (arith, length-append xs (x ∷ []))
put_full-Fits capacity flags x drop_random xs full pos sweep =
    random-Fits capacity flags x xs full sweep

-- A queue within its capacity, which is not 0, stays within it.
pub put-Fits :
    (capacity : ℕ) (flags : List Bool) (x : Entry) (policy : SchedPolicy) (xs : List Entry)
    → length xs ≤ capacity
    → 0 < capacity
    → (length xs ≡ capacity → SweepMarks capacity flags policy xs)
    → Fits capacity (put capacity flags x policy xs)
unfolding put
put-Fits capacity flags x policy xs within pos sweep = elim (ℕ_discrete (length xs) capacity) [
  | yes full ↦ rw (eq_true full) (put_full-Fits capacity flags x policy xs full pos (sweep full))
  | no ne ↦ rw (eq_false ne) (omega (arith, length-append xs (x ∷ [])))
]
