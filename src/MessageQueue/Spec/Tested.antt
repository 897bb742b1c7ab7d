-- ===== src/MessageQueue/Spec/Tested.antt =====
-- Where the specification of `MQPut` lets the caller sleep: its call tests the size again, except
-- under `random` below a capacity of 4.
use operating_system_whw.Common.{
  ℕ, ◌<◌, ◌≡◌, refl, ◌⊎◌, inl, inr, Bool, true, false, List, [], ◌∷◌, arith, length, ltb, ◌==◌,
  if◌then◌else◌,
}
use operating_system_whw.MessageQueue.Types.{
  SchedPolicy, invalid, block, drop_tail, drop_head, drop_random,
}
use operating_system_whw.MessageQueue.Put.{recheck}
use operating_system_whw.MessageQueue.Spec.{Entry, Answer, sleeps, answers, put_full, put}

abbrev pub Tested : SchedPolicy → ℕ → Answer → Type 0
Tested policy capacity (sleeps resume) =
    (resume ≡ recheck) ⊎ ((policy ≡ drop_random) × (capacity < 4))
Tested policy capacity (answers code ys out) = Unit {0}

on_test :
    (P : Answer → Type 0) (b : Bool) {p q : Answer}
    → (b ≡ true → P p)
    → (b ≡ false → P q)
    → P (if b then p else q)
on_test P true holds other = holds refl
on_test P false holds other = other refl

put_full-Tested :
    (capacity : ℕ) (flags : List Bool) (x : Entry) (policy : SchedPolicy) (xs : List Entry)
    → Tested policy capacity (put_full capacity flags x policy xs)
unfolding put_full
put_full-Tested capacity flags x invalid xs = inl refl
put_full-Tested capacity flags x block xs = inl refl
put_full-Tested capacity flags x drop_tail xs = tt
put_full-Tested capacity flags x drop_head [] = tt
put_full-Tested capacity flags x drop_head (y ∷ xs) = tt
put_full-Tested capacity flags x drop_random xs =
    on_test (Tested drop_random capacity) (ltb capacity 4) (λ e. inr (refl, ground (arith, e)))
      λ e. tt

pub put-Tested :
    (capacity : ℕ) (flags : List Bool) (x : Entry) (policy : SchedPolicy) (xs : List Entry)
    → Tested policy capacity (put capacity flags x policy xs)
unfolding put
put-Tested capacity flags x policy xs =
    on_test (Tested policy capacity) (length xs == capacity)
      (λ e. put_full-Tested capacity flags x policy xs) λ e. tt
