-- ===== src/MessageQueue/Random/Fill.antt =====
-- The marks that `getRandomIndexes` sets, and the draws that it needs.
use native.Mathlib.Nat.{mod-lt}
use operating_system_whw.Common.{
  sym, ℕ, zero, suc, ◌+◌, ◌%◌, ◌≤◌, ◌<◌, ◌≡◌, refl, ◌≢◌, ◌⊎◌, inl, inr, Bool, true, false, some,
  List, [], ◌∷◌, arith, ap, ◌∙◌, length, get_elem?, set, replicate, length-set, length-replicate,
  get_elem?-of_lt, get_elem?-set_self, get_elem?-set_ne, Bool-cases,
}
use operating_system_whw.Heap.{Heap, ok}
use operating_system_whw.Heap.Returns
use operating_system_whw.Heap.Returns.{Returns, returns}
use operating_system_whw.MessageQueue.Drop.Marks.{marks}
use operating_system_whw.MessageQueue.Random.{fill_indexes, get_random_indexes}

-- Some draw comes to index `i`.
abbrev pub Appears : ℕ → ℕ → List ℕ → Type 0
Appears capacity i [] = ⊥
Appears capacity i (d ∷ ds) = (d % capacity ≡ i) ⊎ Appears capacity i ds

marks-set :
    (flags : List Bool) (i : ℕ)
    → get_elem? flags i ≡ some false
    → marks (set flags i true) ≡ suc (marks flags)
unfolding marks
marks-set [] i e = cc
marks-set (f ∷ flags) zero e = ground arith
marks-set (true ∷ flags) (suc i) e = ap suc (marks-set flags i e)
marks-set (false ∷ flags) (suc i) e = marks-set flags i e

unmarked :
    (flags : List Bool)
    → marks flags < length flags
    → (i : ℕ) × (i < length flags) × (get_elem? flags i ≡ some false)
unfolding marks
unmarked [] lt = absurd (omega arith)
unmarked (false ∷ flags) lt = (0, omega arith, refl)
unmarked (true ∷ flags) lt =
    let (i, below, e) = unmarked flags (omega arith) in (suc i, omega arith, e)

marks-replicate : (n : ℕ) → marks (replicate n false) ≡ 0
unfolding marks
marks-replicate zero = refl
marks-replicate (suc n) = marks-replicate n

marked_ne :
    (flags : List Bool) (i j : ℕ)
    → get_elem? flags i ≡ some true
    → get_elem? flags j ≡ some false
    → i ≢ j
marked_ne flags i j p q e = cc

-- An array for `capacity` indexes of which `amount` are marked; the heap is as before.
abbrev pub IsMarking : ℕ → ℕ → Heap → List Bool → Heap → Type 0
IsMarking capacity amount h flags g = (length flags ≡ capacity) × (marks flags ≡ amount) × (g ≡ h)

module _ (capacity : ℕ) (h : Heap) where
  -- Each index without a mark is still to be drawn.
  abbrev Covers : List Bool → List ℕ → Type 0
  Covers flags draws =
      (i : ℕ) → i < capacity → get_elem? flags i ≡ some false → Appears capacity i draws

  fill_indexes-IsMarking :
      (k : ℕ) (flags : List Bool) (draws : List ℕ)
      → length flags ≡ capacity
      → marks flags + k ≤ capacity
      → Covers flags draws
      → Returns (IsMarking capacity (marks flags + k) h) (fill_indexes capacity k flags draws h)
  unfolding fill_indexes
  fill_indexes-IsMarking zero flags draws len fits covers = returns (len, omega arith, refl)
  fill_indexes-IsMarking (suc k) flags [] len fits covers =
      let (i, below, e) = unmarked flags (omega arith) in absurd (covers i (omega arith) e)
  fill_indexes-IsMarking (suc k) flags (d ∷ ds) len fits covers =
      let i : ℕ = d % capacity in
      let below : i < length flags = rw len (mod-lt d {m = capacity} (omega arith)) in
      let (b, at) = get_elem?-of_lt flags i below in
      elim (Bool-cases b) [
        | inl old ↦
            rw (at ∙ ap some old, fill_indexes)
              (fill_indexes-IsMarking (suc k) flags ds len fits
                λ j lt e. other j (marked_ne flags i j (at ∙ ap some old) e) (covers j lt e))
        | inr new ↦
            let unset : get_elem? flags i ≡ some false = at ∙ ap some new in
            rw (unset, fill_indexes)
              (Returns.mono
                (fill_indexes-IsMarking k (set flags i true) ds (length-set flags i true ∙ len)
                  (omega (arith, marks-set flags i unset))
                  λ j lt e.
                    let ne =
                      marked_ne (set flags i true) i j (get_elem?-set_self flags i true below) e in
                    other j ne (covers j lt (sym (get_elem?-set_ne flags i j true ne) ∙ e)))
                λ out g (len', count, same). (len', omega (arith, marks-set flags i unset), same))
      ]
    where
      other : (j : ℕ) → d % capacity ≢ j → Appears capacity j (d ∷ ds) → Appears capacity j ds
      other j ne (inl here) = absurd (ne here)
      other j ne (inr later) = later

-- With memory, for at most `capacity` marks, and once `rand()` has come to every index,
-- `getRandomIndexes` returns an array of `capacity` places of which exactly `amount` are marked.
pub get_random_indexes-marks :
    (capacity amount : ℕ) (draws : List ℕ) (h : Heap)
    → amount ≤ capacity
    → ((i : ℕ) → i < capacity → Appears capacity i draws)
    → (flags : List Bool) × (get_random_indexes true capacity amount draws h ≡ ok (some flags) h)
      × (length flags ≡ capacity)
      × (marks flags ≡ amount)
unfolding get_random_indexes
get_random_indexes-marks capacity amount draws h fits covers =
    let none_yet = marks-replicate capacity in
    let (flags, g, e, is) = Returns.inversion (
      fill_indexes-IsMarking capacity h amount (replicate capacity false) draws
        (length-replicate capacity false) (omega (arith, none_yet)) λ i lt e. covers i lt) in
    (flags, rw (e, is.2), is.0, omega (arith, is.1, none_yet))
