-- ===== src/Positions/Ranks.antt =====
-- internal/liquidation/scanner/scanner.go: the health factors by place in the queue.
use defi_demo.Base.{
  ℕ, ◌<◌, ◌≡◌, refl, ap, ◌∙◌, Bool, true, false, Option, none, some, nat_eq, ◌==◌, inl, inr,
  Bool-cases, Option-cases, get_elem?, length, nat_eqb, if◌then◌else◌, ◌>>=◌,
}
use defi_demo.Base.Assoc.{Map, lookup, insert, lookup-insert}
use defi_demo.Base.Int.{ℤ}
use defi_demo.Positions.{UserPosition, Scanner, less, swap, swap_users, set_index}
use defi_demo.Positions.Indexed.{swapped_get}
use defi_demo.Positions.Ends.{get_elem?-inside}
use defi_demo.Positions.Order.{before, Exchanged}

-- The health factor of a user.
unfoldable pub factor_of : Map ℕ UserPosition → ℕ → Option ℤ
factor_of m user = do p ← lookup user m; p.health_factor

unfoldable pub factor_in : Map ℕ UserPosition → Option ℕ → Option ℤ
factor_in m entry = entry >>= factor_of m

-- The health factor by place.
unfoldable pub rank : Scanner → ℕ → Option ℤ
rank s i = factor_in s.positions (get_elem? s.queue i)

pub less-rank : (s : Scanner) (i j : ℕ) → less s i j ≡ before (rank s i) (rank s j)
unfolding less before rank factor_in factor_of
less-rank s i j = refl

pub factor_of-insert :
    (user v : ℕ) (p : UserPosition) (m : Map ℕ UserPosition)
    → factor_of (insert user p m) v ≡ (if user == v then p.health_factor else factor_of m v)
unfolding factor_of
factor_of-insert user v p m =
    rw lookup-insert
      (elim (Bool-cases (user == v)) [ inl same ↦ rw same refl | inr other ↦ rw other refl ])

known_factor :
    (user v : ℕ) (p : UserPosition) (m : Map ℕ UserPosition)
    → lookup user m ≡ some p
    → user ≡ v
    → p.health_factor ≡ factor_of m v
unfolding factor_of
known_factor user v p m e same = rw (← same, e) refl

pub factor_of-set_index :
    (user v : ℕ) (i : Option ℕ) (m : Map ℕ UserPosition)
    → factor_of (set_index user i m) v ≡ factor_of m v
unfolding set_index
factor_of-set_index user v i m = elim (Option-cases (lookup user m)) [
  | inl absent ↦ rw (set_index, absent) refl
  | inr (p, e) ↦
      rw (set_index, e)
        (factor_of-insert user v (record p { heap_index = i }) m ∙ (elim (Bool-cases (user == v)) [
          | inl same ↦ rw same (known_factor user v p m e ((nat_eq.beq_iff user v).0 same))
          | inr other ↦ rw other refl
        ]))
]

pub factor_in-set_index :
    (user : ℕ) (i entry : Option ℕ) (m : Map ℕ UserPosition)
    → factor_in (set_index user i m) entry ≡ factor_in m entry
unfolding factor_in
factor_in-set_index user i none m = refl
factor_in-set_index user i (some v) m = factor_of-set_index user v i m

factor_in-exchanged :
    (m : Map ℕ UserPosition) (q p : Bool) (a b k : Option ℕ)
    → factor_in m (if q then a else if p then b else k)
      ≡ (if q then factor_in m a else if p then factor_in m b else factor_in m k)
factor_in-exchanged m true p a b k = refl
factor_in-exchanged m false true a b k = refl
factor_in-exchanged m false false a b k = refl

pub rank-swap :
    (i j : ℕ) (s : Scanner)
    → i < length s.queue
    → j < length s.queue
    → Exchanged (rank s) (rank (swap i j s)) i j
unfolding rank swap swap_users
rank-swap i j s hi hj k =
    let (a, ha) = get_elem?-inside s.queue i hi in
    let (b, hb) = get_elem?-inside s.queue j hj in
    rw (swap, ha, hb)
      (factor_in-set_index a (some j) _ (set_index b (some i) s.positions)
        ∙ factor_in-set_index b (some i) _ s.positions
        ∙ ap (factor_in s.positions) (swapped_get s.queue i j a b k ha hb)
        ∙ factor_in-exchanged s.positions (nat_eqb j k) (nat_eqb i k) (some a) (some b) _)
