-- ===== src/Positions/Kept.antt =====
-- internal/liquidation/scanner/scanner.go: what no exchange of two places changes.
use defi_demo.Base.{
  ℕ, zero, suc, ◌+◌, ◌-◌, ◌*◌, ◌/◌, ◌≡◌, refl, ◌∙◌, ◌⊎◌, false, Option, none, some, nat_eq, ◌==◌,
  inl, inr, Bool-cases, Option-cases, get_elem?, nat_eqb, leb, not, ◌||◌, if◌then◌else◌, arith,
}
use defi_demo.Base.Assoc.{Map, lookup, insert, erase, lookup-insert, lookup-erase}
use defi_demo.Positions.{UserPosition, Scanner, less, swap, swap_users, set_index}
use defi_demo.Positions.Heap.{up_on, up, smaller_child, down_on, down, sift}
use defi_demo.Positions.Indexed.{index_of}

-- A statement on scanners that each exchange keeps.
module _ (P : Scanner → Type 0)
    (keep : (i j a b : ℕ) (s : Scanner) → P s → P (swap_users i j a b s)) where
  swap_keeps : (i j : ℕ) (s : Scanner) → P s → P (swap i j s)
  unfolding swap
  swap_keeps i j s h = elim (Option-cases (get_elem? s.queue i)) [
    | inl out ↦ rw (swap, out) h
    | inr (a, ha) ↦ elim (Option-cases (get_elem? s.queue j)) [
      | inl out ↦ rw (swap, ha, out) h
      | inr (b, hb) ↦ rw (swap, ha, hb) (keep i j a b s h)
    ]
  ]

  up_on_keeps : (f j : ℕ) (s : Scanner) → P s → P (up_on f j s)
  unfolding up_on
  up_on_keeps zero j s h = h
  up_on_keeps (suc f) j s h =
      let i = (j - 1) / 2 in
      elim (Bool-cases (nat_eqb i j || not (less s j i))) [
        | inl stops ↦ rw stops h
        | inr goes ↦ rw goes (up_on_keeps f i (swap i j s) (swap_keeps i j s h))
      ]

  down_on_keeps : (f i n : ℕ) (s : Scanner) → P s → P (down_on f i n s).1
  unfolding down_on
  down_on_keeps zero i n s h = h
  down_on_keeps (suc f) i n s h =
      let j = smaller_child i n s in
      elim (Bool-cases (leb n (2 * i + 1) || not (less s j i))) [
        | inl stops ↦ rw stops h
        | inr goes ↦ rw goes (down_on_keeps f j n (swap i j s) (swap_keeps i j s h))
      ]

  pub up_keeps : (j : ℕ) (s : Scanner) → P s → P (up j s)
  unfolding up
  up_keeps j s h = up_on_keeps (suc j) j s h

  pub sift_keeps : (i n : ℕ) (s : Scanner) → P s → P (sift i n s)
  unfolding sift down
  sift_keeps i n s h =
      let one = down_on_keeps n i n s h in
      elim (Bool-cases (down i n s).0) [
        | inl moved ↦ rw (sift, moved) one
        | inr stays ↦ rw (sift, stays) (up_keeps i _ one)
      ]

  pub moved_keeps : (i j n : ℕ) (s : Scanner) → P s → P (sift i n (swap i j s))
  moved_keeps i j n s h = sift_keeps i n (swap i j s) (swap_keeps i j s h)

-- A position without its place in the queue.
abbrev pub placeless : UserPosition → UserPosition
placeless p = record p { heap_index = none }

abbrev pub forget : Option UserPosition → Option UserPosition
forget none = none
forget (some p) = some (placeless p)

-- The map of positions that the scanner stands for.
unfoldable pub contents : Map ℕ UserPosition → ℕ → Option UserPosition
contents m user = forget (lookup user m)

pub contents-insert :
    (user v : ℕ) (p : UserPosition) (m : Map ℕ UserPosition)
    → contents (insert user p m) v ≡ (if user == v then some (placeless p) else contents m v)
unfolding contents
contents-insert user v p m =
    rw lookup-insert
      (elim (Bool-cases (user == v)) [ inl same ↦ rw same refl | inr other ↦ rw other refl ])

known_contents :
    (user v : ℕ) (p : UserPosition) (m : Map ℕ UserPosition)
    → lookup user m ≡ some p
    → user ≡ v
    → some (placeless p) ≡ contents m v
unfolding contents
known_contents user v p m e same = rw (← same, e) refl

pub contents-set_index :
    (user v : ℕ) (i : Option ℕ) (m : Map ℕ UserPosition)
    → contents (set_index user i m) v ≡ contents m v
unfolding set_index
contents-set_index user v i m = elim (Option-cases (lookup user m)) [
  | inl absent ↦ rw (set_index, absent) refl
  | inr (p, e) ↦
      rw (set_index, e)
        (contents-insert user v (record p { heap_index = i }) m ∙ (elim (Bool-cases (user == v)) [
          | inl same ↦ rw same (known_contents user v p m e ((nat_eq.beq_iff user v).0 same))
          | inr other ↦ rw other refl
        ]))
]

-- The scanner stands for this map.
abbrev pub Holds : (ℕ → Option UserPosition) → Scanner → Type 0
Holds view s = (v : ℕ) → contents s.positions v ≡ view v

pub swap_users-Holds :
    (view : ℕ → Option UserPosition) (i j a b : ℕ) (s : Scanner)
    → Holds view s
    → Holds view (swap_users i j a b s)
unfolding swap_users
swap_users-Holds view i j a b s h v =
    contents-set_index a v (some j) (set_index b (some i) s.positions)
    ∙ contents-set_index b v (some i) s.positions
    ∙ h v

-- The position of this user, if there is one, has a place in the queue.
abbrev pub IsPlaced : Map ℕ UserPosition → ℕ → Type 0
IsPlaced m v = (lookup v m ≡ none) ⊎ ((i : ℕ) × (index_of m v ≡ some i))

pub insert-IsPlaced :
    (user v : ℕ) (p : UserPosition) (m : Map ℕ UserPosition)
    → (p.heap_index ≡ none → (user == v) ≡ false)
    → ((user == v) ≡ false → IsPlaced m v)
    → IsPlaced (insert user p m) v
insert-IsPlaced user v p m placed h = elim (Bool-cases (user == v)) [
  | inr other ↦ rw (index_of, lookup-insert, other) (h other)
  | inl same ↦ elim (Option-cases p.heap_index) [
    | inl outside ↦ ground (arith, placed outside)
    | inr (i, inside) ↦ rw (index_of, lookup-insert, same) (inr (i, inside))
  ]
]

pub set_index-IsPlaced :
    (user v i : ℕ) (m : Map ℕ UserPosition) → IsPlaced m v → IsPlaced (set_index user (some i) m) v
unfolding set_index
set_index-IsPlaced user v i m h = elim (Option-cases (lookup user m)) [
  | inl absent ↦ rw (set_index, absent) h
  | inr (p, e) ↦
      rw (set_index, e)
        (insert-IsPlaced user v (record p { heap_index = some i }) m (λ x. ground arith) (λ x. h))
]

-- All positions but that of `user` have a place.
abbrev pub PlacedBut : ℕ → Scanner → Type 0
PlacedBut user s = (v : ℕ) → (user == v) ≡ false → IsPlaced s.positions v

abbrev pub AllPlaced : Scanner → Type 0
AllPlaced s = (v : ℕ) → IsPlaced s.positions v

pub swap_users-AllPlaced :
    (i j a b : ℕ) (s : Scanner) → AllPlaced s → AllPlaced (swap_users i j a b s)
unfolding swap_users
swap_users-AllPlaced i j a b s h v =
    set_index-IsPlaced a v j (set_index b (some i) s.positions)
      (set_index-IsPlaced b v i s.positions (h v))

pub set_index-PlacedBut :
    (user v : ℕ) (i : Option ℕ) (m : Map ℕ UserPosition)
    → (user == v) ≡ false
    → IsPlaced m v
    → IsPlaced (set_index user i m) v
unfolding set_index
set_index-PlacedBut user v i m other h = elim (Option-cases (lookup user m)) [
  | inl absent ↦ rw (set_index, absent) h
  | inr (p, e) ↦
      rw (set_index, e)
        (insert-IsPlaced user v (record p { heap_index = i }) m (λ x. other) (λ x. h))
]

pub erase-IsPlaced :
    (user v : ℕ) (m : Map ℕ UserPosition)
    → ((user == v) ≡ false → IsPlaced m v)
    → IsPlaced (erase user m) v
erase-IsPlaced user v m h = elim (Bool-cases (user == v)) [
  | inl same ↦ inl (lookup-erase user v m ∙ rw same refl)
  | inr other ↦ rw (index_of, lookup-erase, other) (h other)
]
