-- ===== src/Positions/Indexed.antt =====
-- internal/liquidation/scanner/scanner.go: the heap indices and the swap of two positions.
use defi_demo.Base.{
  ℕ, zero, suc, ◌≡◌, refl, ap, sym, ◌∙◌, Bool, true, false, Option, none, some, List, [], ◌∷◌,
  nat_eq, ◌==◌, if◌then◌else◌, ◌>>=◌, arith, inl, inr, Bool-cases, Option-cases, get_elem?, set,
}
use defi_demo.Base.Assoc.{Map, lookup, lookup-insert, beq_refl}
use defi_demo.Positions.{UserPosition, Scanner, set_index, swap_users, swap}

-- The place that a user's position remembers.
abbrev pub index_of : Map ℕ UserPosition → ℕ → Option ℕ
index_of m user = do p ← lookup user m; p.heap_index

abbrev pub IsKnown : Map ℕ UserPosition → ℕ → Type 0
IsKnown m user = (p : UserPosition) × (lookup user m ≡ some p)

abbrev pub is_at : Option ℕ → ℕ → Bool
is_at none x = false
is_at (some y) x = y == x

-- Queue and heap indices say the same.
abbrev pub IsIndexed : Scanner → Type 0
IsIndexed s = (i user : ℕ) → is_at (get_elem? s.queue i) user ≡ is_at (index_of s.positions user) i

get_elem?-set :
    (xs : List ℕ) (i k a b : ℕ)
    → get_elem? xs i ≡ some a
    → get_elem? (set xs i b) k ≡ (if i == k then some b else get_elem? xs k)
get_elem?-set [] i k a b h = ground arith
get_elem?-set (x ∷ xs) zero zero a b h = refl
get_elem?-set (x ∷ xs) zero (suc k) a b h = ground arith
get_elem?-set (x ∷ xs) (suc i) zero a b h = ground arith
get_elem?-set (x ∷ xs) (suc i) (suc k) a b h = ground (arith, get_elem?-set xs i k a b h)

pub index_of-set_index :
    (user v : ℕ) (i : Option ℕ) (m : Map ℕ UserPosition)
    → IsKnown m user
    → index_of (set_index user i m) v ≡ (if user == v then i else index_of m v)
unfolding set_index
index_of-set_index user v i m (p, e) =
    rw (set_index, e, index_of, lookup-insert)
      (elim (Bool-cases (user == v)) [ inl same ↦ rw same refl | inr other ↦ rw other refl ])

pub set_index-IsKnown :
    (user v : ℕ) (i : Option ℕ) (m : Map ℕ UserPosition)
    → IsKnown m v
    → IsKnown (set_index user i m) v
unfolding set_index
set_index-IsKnown user v i m (p, e) = elim (Option-cases (lookup user m)) [
  | inl absent ↦ (p, rw (set_index, absent) e)
  | inr (q, f) ↦ elim (Bool-cases (user == v)) [
    | inl same ↦ (record q { heap_index = i }, rw (set_index, f, lookup-insert, same) refl)
    | inr other ↦ (p, rw (set_index, f, lookup-insert, other) e)
  ]
]

-- A place in the queue is the place of a known position.
pub index_of-IsKnown :
    (m : Map ℕ UserPosition) (user i : ℕ) → index_of m user ≡ some i → IsKnown m user
index_of-IsKnown m user i e = elim (Option-cases (lookup user m)) [
  | inl absent ↦ ground arith
  | inr known ↦ known
]

pub is_at-some : (o : Option ℕ) (x : ℕ) → is_at o x ≡ true → o ≡ some x
is_at-some none x h = ground arith
is_at-some (some y) x h = ap some ((nat_eq.beq_iff y x).0 h)

pub place_of :
    (i a : ℕ) (s : Scanner)
    → IsIndexed s
    → get_elem? s.queue i ≡ some a
    → index_of s.positions a ≡ some i
place_of i a s h e =
    is_at-some (index_of s.positions a) i
      (sym (h i a) ∙ ap (λ (o : Option ℕ). is_at o a) e ∙ beq_refl a)

-- Two entries that change places, in the queue and in the indices.
swap_pointwise :
    (get index : ℕ → Option ℕ) (i j a b k user : ℕ)
    → ((n x : ℕ) → is_at (get n) x ≡ is_at (index x) n)
    → get i ≡ some a
    → get j ≡ some b
    → is_at (if j == k then some a else if i == k then some b else get k) user
      ≡ is_at (if a == user then some j else if b == user then some i else index user) k
swap_pointwise get index i j a b k user h ha hb =
    ground (arith, h i a, h j b, h k user, h i user, h j user, h k a, h k b)

pub swapped_get :
    (xs : List ℕ) (i j a b k : ℕ)
    → get_elem? xs i ≡ some a
    → get_elem? xs j ≡ some b
    → get_elem? (set (set xs i b) j a) k
      ≡ (if j == k then some a else if i == k then some b else get_elem? xs k)
swapped_get xs i j a b k ha hb =
    let still : get_elem? (set xs i b) j ≡ some b =
      get_elem?-set xs i j a b ha
      ∙ (elim (Bool-cases (i == j)) [ inl same ↦ rw same refl | inr other ↦ rw other hb ]) in
    get_elem?-set (set xs i b) j k b a still
    ∙ ap (λ (o : Option ℕ). if j == k then some a else o) (get_elem?-set xs i k a b ha)

swapped_index :
    (m : Map ℕ UserPosition) (i j a b user : ℕ)
    → IsKnown m a
    → IsKnown m b
    → index_of (set_index a (some j) (set_index b (some i) m)) user
      ≡ (if a == user then some j else if b == user then some i else index_of m user)
swapped_index m i j a b user ka kb =
    index_of-set_index a user (some j) (set_index b (some i) m)
      (set_index-IsKnown b a (some i) m ka)
    ∙ ap (λ (o : Option ℕ). if a == user then some j else o)
        (index_of-set_index b user (some i) m kb)

swap_users-IsIndexed :
    (i j a b : ℕ) (s : Scanner)
    → IsIndexed s
    → get_elem? s.queue i ≡ some a
    → get_elem? s.queue j ≡ some b
    → IsIndexed (swap_users i j a b s)
unfolding swap_users
swap_users-IsIndexed i j a b s h ha hb k user =
    let ka = index_of-IsKnown s.positions a i (place_of i a s h ha) in
    let kb = index_of-IsKnown s.positions b j (place_of j b s h hb) in
    rw (swapped_get s.queue i j a b k ha hb, swapped_index s.positions i j a b user ka kb)
      (swap_pointwise (get_elem? s.queue) (index_of s.positions) i j a b k user h ha hb)

pub swap-IsIndexed : (i j : ℕ) (s : Scanner) → IsIndexed s → IsIndexed (swap i j s)
unfolding swap
swap-IsIndexed i j s h = elim (Option-cases (get_elem? s.queue i)) [
  | inl out ↦ rw (swap, out) h
  | inr (a, ha) ↦ elim (Option-cases (get_elem? s.queue j)) [
    | inl out ↦ rw (swap, ha, out) h
    | inr (b, hb) ↦ rw (swap, ha, hb) (swap_users-IsIndexed i j a b s h ha hb)
  ]
]
