-- ===== src/Positions/Sift.antt =====
-- internal/liquidation/scanner/scanner.go: the heap indices while container/heap sifts.
use defi_demo.Base.{
  ℕ, zero, suc, ◌+◌, ◌-◌, ◌*◌, ◌/◌, ◌<◌, ◌≡◌, ◌⊎◌, refl, ap, ◌∙◌, false, some, List, nat_eq, ◌==◌,
  arith, inl, inr, Bool-cases, Option-cases, get_elem?, set, length, length-set, nat_eqb, leb, not,
  ◌||◌,
}
use defi_demo.Positions.{Scanner, less, swap, swap_users}
use defi_demo.Positions.Indexed.{IsIndexed, swap-IsIndexed, swapped_get}
use defi_demo.Positions.Heap.{up_on, up, smaller_child, down_on, down, sift}

-- `after` is a permutation of `s` that leaves the places from `n` on.
abbrev pub IsSift : ℕ → Scanner → Scanner → Type 0
IsSift n s after =
    IsIndexed after
    × (length after.queue ≡ length s.queue)
    × ((k : ℕ) → get_elem? after.queue (n + k) ≡ get_elem? s.queue (n + k))

swap_users-above :
    (n k i j a b : ℕ) (xs : List ℕ)
    → i < n
    → j < n
    → get_elem? xs i ≡ some a
    → get_elem? xs j ≡ some b
    → get_elem? (set (set xs i b) j a) (n + k) ≡ get_elem? xs (n + k)
swap_users-above n k i j a b xs hi hj ha hb =
    let ni : (i == n + k) ≡ false = ground arith in
    let nj : (j == n + k) ≡ false = ground arith in
    swapped_get xs i j a b (n + k) ha hb ∙ rw (ni, nj) refl

-- A swap by cases: nothing, or two users that change places.
swap_cases :
    (i j : ℕ) (s : Scanner)
    → (swap i j s ≡ s)
      ⊎ ((a : ℕ) × (b : ℕ) × (get_elem? s.queue i ≡ some a)
          × (get_elem? s.queue j ≡ some b)
          × (swap i j s ≡ swap_users i j a b s))
unfolding swap
swap_cases i j s = elim (Option-cases (get_elem? s.queue i)) [
  | inl out ↦ inl (rw (swap, out) refl)
  | inr (a, ha) ↦ elim (Option-cases (get_elem? s.queue j)) [
    | inl out ↦ inl (rw (swap, ha, out) refl)
    | inr (b, hb) ↦ inr (a, b, ha, hb, rw (swap, ha, hb) refl)
  ]
]

pub swap-length : (i j : ℕ) (s : Scanner) → length (swap i j s).queue ≡ length s.queue
unfolding swap_users
swap-length i j s = elim (swap_cases i j s) [
  | inl same ↦ ap (λ (x : Scanner). length x.queue) same
  | inr (a, b, ha, hb, e) ↦
      ap (λ (x : Scanner). length x.queue) e
      ∙ length-set (set s.queue i b) j a
      ∙ length-set s.queue i b
]

swap-above :
    (n k i j : ℕ) (s : Scanner)
    → i < n
    → j < n
    → get_elem? (swap i j s).queue (n + k) ≡ get_elem? s.queue (n + k)
unfolding swap_users
swap-above n k i j s hi hj = elim (swap_cases i j s) [
  | inl same ↦ ap (λ (x : Scanner). get_elem? x.queue (n + k)) same
  | inr (a, b, ha, hb, e) ↦
      ap (λ (x : Scanner). get_elem? x.queue (n + k)) e
      ∙ swap_users-above n k i j a b s.queue hi hj ha hb
]

swap-IsSift : (n i j : ℕ) (s : Scanner) → i < n → j < n → IsIndexed s → IsSift n s (swap i j s)
swap-IsSift n i j s hi hj h =
    (swap-IsIndexed i j s h, swap-length i j s, λ (k : ℕ). swap-above n k i j s hi hj)

trans : (n : ℕ) (s s1 s2 : Scanner) → IsSift n s s1 → IsSift n s1 s2 → IsSift n s s2
trans n s s1 s2 (_, l, a) (h, m, b) = (h, m ∙ l, λ (k : ℕ). b k ∙ a k)

none_moved : (n : ℕ) (s : Scanner) → IsIndexed s → IsSift n s s
none_moved n s h = (h, refl, λ (k : ℕ). refl)

pub up_on-IsSift : (f n j : ℕ) (s : Scanner) → j < n → IsIndexed s → IsSift n s (up_on f j s)
unfolding up_on
up_on-IsSift zero n j s hj h = none_moved n s h
up_on-IsSift (suc f) n j s hj h =
    let i = (j - 1) / 2 in
    let hi : i < n = omega arith in
    elim (Bool-cases (nat_eqb i j || not (less s j i))) [
      | inl stops ↦ rw stops (none_moved n s h)
      | inr goes ↦
          let one = swap-IsSift n i j s hi hj h in
          rw goes (trans n s (swap i j s) _ one (up_on-IsSift f n i (swap i j s) hi one.0))
    ]

child_below : (i n : ℕ) (s : Scanner) → leb n (2 * i + 1) ≡ false → smaller_child i n s < n
unfolding smaller_child
child_below i n s h = ground arith

down_on-IsSift : (f i n : ℕ) (s : Scanner) → i < n → IsIndexed s → IsSift n s (down_on f i n s).1
unfolding down_on
down_on-IsSift zero i n s hi h = none_moved n s h
down_on-IsSift (suc f) i n s hi h =
    let j = smaller_child i n s in
    elim (Bool-cases (leb n (2 * i + 1))) [
      | inl leaf ↦ rw leaf (none_moved n s h)
      | inr inner ↦ elim (Bool-cases (less s j i)) [
        | inl goes ↦
            let hj = child_below i n s inner in
            let one = swap-IsSift n i j s hi hj h in
            rw (inner, goes)
              (trans n s (swap i j s) _ one (down_on-IsSift f j n (swap i j s) hj one.0))
        | inr stops ↦ rw (inner, stops) (none_moved n s h)
      ]
    ]

pub sift-IsSift : (i n : ℕ) (s : Scanner) → i < n → IsIndexed s → IsSift n s (sift i n s)
unfolding sift down up
sift-IsSift i n s hi h =
    let one = down_on-IsSift n i n s hi h in
    elim (Bool-cases (down i n s).0) [
      | inl moved ↦ rw (sift, moved) one
      | inr stays ↦ rw (sift, stays) (trans n s _ _ one (up_on-IsSift (suc i) n i _ hi one.0))
    ]
