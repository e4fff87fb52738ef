-- ===== src/Positions/Heaped.antt =====
-- internal/liquidation/scanner/scanner.go: container/heap restores the order of the queue.
use defi_demo.Base.{
  ℕ, zero, suc, ◌+◌, ◌*◌, ◌<◌, ◌≤◌, ◌≡◌, refl, true, false, Option, nat_eq, arith, inl, inr,
  Bool-cases, length, nat_eqb, ltb, leb, ◌⊎◌, leb→le, lt→ltb,
}
use defi_demo.Base.Int.{ℤ}
use defi_demo.Positions.{Scanner, less, swap}
use defi_demo.Positions.Sift.{swap-length}
use defi_demo.Positions.Heap.{up_on, up, smaller_child, down_on, down, sift}
use defi_demo.Positions.Order.{
  before, before_asym, before_refl, parent, IsHeap, IsHeapAbove, IsHeapBelow, IsHeapBut,
  IsFirstChild, exchange_down, exchange_up, settled_down, leaf_down, both-IsHeap, below_but,
  top-IsHeap, settled_up,
}
use defi_demo.Positions.Ranks.{rank, less-rank, rank-swap}

child_cases : (i c : ℕ) → 0 < c → parent c ≡ i → (c ≡ 2 * i + 1) ⊎ (c ≡ 2 * i + 1 + 1)
child_cases i c positive r = ground arith

ltb_irrefl : (i : ℕ) → ltb i i ≡ false
ltb_irrefl i = ground arith

le_refl : (i : ℕ) → i ≤ i
le_refl i = omega arith

lt_weaken : (i j : ℕ) → i < j → i ≤ j
lt_weaken i j h = omega arith

right_first :
    (i c : ℕ) (f : ℕ → Option ℤ)
    → before (f (2 * i + 1 + 1)) (f (2 * i + 1)) ≡ true
    → 0 < c
    → parent c ≡ i
    → before (f c) (f (2 * i + 1 + 1)) ≡ false
right_first i c f less positive r = elim (child_cases i c positive r) [
  | inl left ↦ rw left (before_asym (f (2 * i + 1 + 1)) (f (2 * i + 1)) less)
  | inr right ↦ rw right (before_refl (f (2 * i + 1 + 1)))
]

left_first :
    (i c : ℕ) (f : ℕ → Option ℤ)
    → before (f (2 * i + 1 + 1)) (f (2 * i + 1)) ≡ false
    → 0 < c
    → parent c ≡ i
    → before (f c) (f (2 * i + 1)) ≡ false
left_first i c f less positive r = elim (child_cases i c positive r) [
  | inl left ↦ rw left (before_refl (f (2 * i + 1)))
  | inr right ↦ rw right less
]

module _ (n i j : ℕ) (f : ℕ → Option ℤ) (last : ℕ) (child : IsFirstChild n f i j) where
  child_later : n ≤ suc last + i → n ≤ last + j
  child_later fuel = ground (arith, child.child)

  child_beyond : j ≤ last → i < last
  child_beyond on = ground (arith, child.child)

smaller_child-IsFirstChild :
    (i n : ℕ) (s : Scanner)
    → leb n (2 * i + 1) ≡ false
    → IsFirstChild n (rank s) i (smaller_child i n s)
unfolding smaller_child
smaller_child-IsFirstChild i n s inner = elim (Bool-cases (ltb (2 * i + 1 + 1) n)) [
  | inr single ↦
      rw (smaller_child, single)
        (record {
          inside = ground arith;
          child = inl refl;
          first = λ c p q r.
              let only : c ≡ 2 * i + 1 = ground arith in rw only (before_refl (rank s (2 * i + 1)));
        })
  | inl two ↦ elim (Bool-cases (before (rank s (2 * i + 1 + 1)) (rank s (2 * i + 1)))) [
    | inl right ↦
        rw (smaller_child, two, less-rank, right)
          (record {
            inside = ground arith;
            child = inr (omega arith);
            first = λ c p q r. right_first i c (rank s) right p r;
          })
    | inr left ↦
        rw (smaller_child, two, less-rank, left)
          (record {
            inside = ground arith;
            child = inl refl;
            first = λ c p q r. left_first i c (rank s) left p r;
          })
  ]
]

-- Without a move, the order holds below the place; with one, everywhere.
abbrev Lowered : ℕ → ℕ → Scanner → ℕ × Scanner → Type 0
Lowered n i s r =
    ((r.0 ≡ i) × (r.1 ≡ s) × IsHeapAbove n (rank s) i) ⊎ ((i < r.0) × IsHeap n (rank r.1))

down_on-IsHeap :
    (f n i : ℕ) (s : Scanner)
    → n ≤ length s.queue
    → i < n
    → n ≤ f + i
    → IsHeapBelow n (rank s) i
    → IsHeap n (rank (down_on f i n s).1) × (i ≤ (down_on f i n s).0)
unfolding down_on
down_on-IsHeap zero n i s size hi fuel v = absurd (omega arith)
down_on-IsHeap (suc f) n i s size hi fuel v = elim (Bool-cases (leb n (2 * i + 1))) [
  | inl leaf ↦ rw leaf (
    both-IsHeap n (rank s) i (leaf_down n (rank s) i (below_but n (rank s) i v) (leb→le n _ leaf))
        v,
    le_refl i,
  )
  | inr inner ↦
      let j = smaller_child i n s in
      let child = smaller_child-IsFirstChild i n s inner in
      elim (Bool-cases (before (rank s j) (rank s i))) [
        | inr stops ↦
            rw (inner, less-rank, stops)
              (
                both-IsHeap n (rank s) i
                    (settled_down n (rank s) (rank s) i j (below_but n (rank s) i v) child stops) v,
                le_refl i,
              )
        | inl goes ↦
            let moved = swap i j s in
            let below =
              exchange_down n (rank s) (rank moved) i j (below_but n (rank s) i v) child goes
                (rank-swap i j s (omega arith) (omega (arith, child.inside))) in
            let (heap, on) =
              down_on-IsHeap f n j moved (omega (arith, swap-length i j s)) child.inside
                (child_later n i j (rank s) f child fuel) below in
            rw (inner, less-rank, goes)
              (heap, lt_weaken _ _ (child_beyond n i j (rank s) _ child on))
      ]
]

down_on-Lowered :
    (f n i : ℕ) (s : Scanner)
    → n ≤ length s.queue
    → i < n
    → n ≤ f + i
    → IsHeapBut n (rank s) i
    → Lowered n i s (down_on f i n s)
unfolding down_on
down_on-Lowered zero n i s size hi fuel v = absurd (omega arith)
down_on-Lowered (suc f) n i s size hi fuel v = elim (Bool-cases (leb n (2 * i + 1))) [
  | inl leaf ↦ rw leaf (inl (refl, refl, leaf_down n (rank s) i v (leb→le n _ leaf)))
  | inr inner ↦
      let j = smaller_child i n s in
      let child = smaller_child-IsFirstChild i n s inner in
      elim (Bool-cases (before (rank s j) (rank s i))) [
        | inr stops ↦
            rw (inner, less-rank, stops)
              (inl (refl, refl, settled_down n (rank s) (rank s) i j v child stops))
        | inl goes ↦
            let moved = swap i j s in
            let below =
              exchange_down n (rank s) (rank moved) i j v child goes
                (rank-swap i j s (omega arith) (omega (arith, child.inside))) in
            let (heap, on) =
              down_on-IsHeap f n j moved (omega (arith, swap-length i j s)) child.inside
                (child_later n i j (rank s) f child fuel) below in
            rw (inner, less-rank, goes) (inr (child_beyond n i j (rank s) _ child on, heap))
      ]
]

up_on-IsHeap :
    (f n j : ℕ) (s : Scanner)
    → n ≤ length s.queue
    → j < n
    → j < f
    → IsHeapAbove n (rank s) j
    → IsHeap n (rank (up_on f j s))
unfolding up_on
up_on-IsHeap zero n j s size hj fuel v = absurd (omega arith)
up_on-IsHeap (suc f) n j s size hj fuel v = elim (Bool-cases (nat_eqb (parent j) j)) [
  | inl top ↦ rw top (top-IsHeap n (rank s) j v (ground arith))
  | inr lower ↦
      let i = parent j in
      let positive : 0 < j = ground arith in
      elim (Bool-cases (before (rank s j) (rank s i))) [
        | inr stops ↦ rw (lower, less-rank, stops) (settled_up n (rank s) j v stops)
        | inl goes ↦
            let moved = swap i j s in
            let above =
              exchange_up n (rank s) (rank moved) i j v hj positive refl goes
                (rank-swap i j s (omega arith) (omega arith)) in
            rw (lower, less-rank, goes)
              (up_on-IsHeap f n i moved (omega (arith, swap-length i j s)) (omega arith)
                (omega arith) above)
      ]
]

-- Restoring the order at one place of the first `n`.
pub sift-IsHeap :
    (n i : ℕ) (s : Scanner)
    → n ≤ length s.queue
    → i < n
    → IsHeapBut n (rank s) i
    → IsHeap n (rank (sift i n s))
unfolding sift down up
sift-IsHeap n i s size hi v = elim (down_on-Lowered n n i s size hi (omega arith) v) [
  | inl (stays, same, above) ↦
      rw (stays, same, ltb_irrefl i) (up_on-IsHeap (suc i) n i s size hi (omega arith) above)
  | inr (moved, heap) ↦ rw (lt→ltb i _ moved) heap
]

pub up-IsHeap :
    (n j : ℕ) (s : Scanner)
    → n ≤ length s.queue
    → j < n
    → IsHeapAbove n (rank s) j
    → IsHeap n (rank (up j s))
unfolding up
up-IsHeap n j s size hj v = up_on-IsHeap (suc j) n j s size hj (omega arith) v
