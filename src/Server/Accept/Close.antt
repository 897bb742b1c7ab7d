-- ===== src/Server/Accept/Close.antt =====
-- The loop of `startServer` that closes dropped connections.
use operating_system_whw.Common.{
  ℕ, zero, suc, ◌+◌, ◌≤◌, ◌<◌, ◌≡◌, ◌⊎◌, inl, inr, refl, ap, some, List, [], ◌∷◌, arith, length,
  take, get_elem?,
}
use operating_system_whw.Heap.{Content, Heap, ok}
use operating_system_whw.MessageQueue.Types.{RetCode, success, drop}
use operating_system_whw.MessageQueue.Drop.{Dropped}
use operating_system_whw.Server.Accept.{close_loop, close_dropped}

-- The contents from index `i` on.
abbrev drop_first : ℕ → List Content → List Content
drop_first zero xs = xs
drop_first (suc i) [] = []
drop_first (suc i) (x ∷ xs) = drop_first i xs

next-drop_first :
    (i : ℕ) (xs : List Content)
    → i < length xs
    → (x : Content) × (get_elem? xs i ≡ some x) × (drop_first i xs ≡ x ∷ drop_first (suc i) xs)
next-drop_first i [] lt = absurd (omega arith)
next-drop_first zero (x ∷ xs) lt = (x, refl, refl)
next-drop_first (suc i) (x ∷ xs) lt = next-drop_first i xs (omega arith)

close_loop-take :
    (k i : ℕ) (contents : List Content) (h : Heap)
    → i + k ≤ length contents
    → close_loop k i contents h ≡ ok (take k (drop_first i contents)) h
unfolding close_loop
close_loop-take zero i contents h fits = refl
close_loop-take (suc k) i contents h fits =
    let (x, at, e) = next-drop_first i contents (omega arith) in
    rw (at, close_loop, close_loop-take k (suc i) contents h (omega arith), e)

length-take_le : (n : ℕ) (xs : List Content) → length (take n xs) ≤ length xs
length-take_le zero xs = omega arith
length-take_le (suc n) [] = omega arith
length-take_le (suc n) (x ∷ xs) = omega (arith, length-take_le n xs)

-- What was reported is closed.
pub close_dropped-ok :
    (code : RetCode) (d : Dropped) (dropped : List Content) (h : Heap)
    → take d.amount d.contents ≡ dropped
    → d.amount ≡ length dropped
    → (code ≡ drop) ⊎ ((code ≡ success) × (dropped ≡ []))
    → close_dropped code d h ≡ ok (some dropped) h
unfolding close_dropped
close_dropped-ok code d dropped h shown amount (inl e) =
    let fits : d.amount ≤ length d.contents =
      omega (arith, amount, ap length shown, length-take_le d.amount d.contents) in
    rw (e, close_dropped, close_loop-take d.amount 0 d.contents h (omega arith), shown)
close_dropped-ok code d dropped h shown amount (inr (e, nothing)) = rw (e, close_dropped, nothing)
