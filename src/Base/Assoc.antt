-- ===== src/Base/Assoc.antt =====
-- A Go map as an association list: each key stands once, a new key is put at the end.
use defi_demo.Base.{
  ◌+◌, ◌≤◌, ◌≡◌, refl, Bool, true, inl, inr, List, [], ◌∷◌, Option, none, some, arith, Eq, ◌==◌,
  if◌then◌else◌, length, Bool-cases,
}

abbrev pub Map {ℓ κ} : Type ℓ → Type κ → Type (ℓ ⊔ κ)
Map K V = List (K × V)

pub beq_refl {ℓ} : {K : Type ℓ} ⦃e : Eq K⦄ → (k : K) → (k == k) ≡ true
beq_refl ⦃e⦄ k = (e.beq_iff k k).1 refl

module _ {ℓ κ} {K : Type ℓ} {V : Type κ} ⦃e : Eq K⦄ where
  -- `v, ok := m[k]`
  unfoldable pub lookup : K → Map K V → Option V
  lookup k [] = none
  lookup k ((j, v) ∷ m) = if j == k then some v else lookup k m

  -- `m[k] = v`
  unfoldable pub insert : K → V → Map K V → Map K V
  insert k v [] = (k, v) ∷ []
  insert k v ((i, old) ∷ m) = if i == k then (k, v) ∷ m else (i, old) ∷ insert k v m

  -- `delete(m, k)`
  unfoldable pub erase : K → Map K V → Map K V
  erase k [] = []
  erase k ((j, w) ∷ m) = let rest = erase k m in if j == k then rest else (j, w) ∷ rest

  -- `for k := range m { if drop(k) { delete(m, k) } }`
  unfoldable pub erase_where : (K → Bool) → Map K V → Map K V
  erase_where p [] = []
  erase_where p ((j, w) ∷ m) = let rest = erase_where p m in if p j then rest else (j, w) ∷ rest

  -- The keys differ, each from all the later ones.
  abbrev pub Distinct : Map K V → Type (ℓ ⊔ κ)
  Distinct [] = Unit
  Distinct ((j, w) ∷ m) = (lookup j m ≡ none) × Distinct m

  pub lookup-insert :
      (k j : K) (v : V) (m : Map K V)
      → lookup j (insert k v m) ≡ (if k == j then some v else lookup j m)
  unfolding lookup insert
  lookup-insert k j v [] = refl
  lookup-insert k j v ((i, old) ∷ m) =
      ground (arith, e.beq_iff k j, e.beq_iff i k, e.beq_iff i j, lookup-insert k j v m)

  pub lookup-insert_self : (k : K) (v : V) (m : Map K V) → lookup k (insert k v m) ≡ some v
  lookup-insert_self k v m = rw (lookup-insert, beq_refl k)

  pub lookup-erase_where :
      (p : K → Bool) (j : K) (m : Map K V)
      → lookup j (erase_where p m) ≡ (if p j then none else lookup j m)
  unfolding lookup erase_where
  lookup-erase_where p j [] = ground arith
  lookup-erase_where p j ((i, w) ∷ m) = elim (Bool-cases (i == j)) [
    | inl same ↦
        rw ((e.beq_iff i j).0 same, beq_refl j)
          (ground (arith, lookup-erase_where p j m, beq_refl j))
    | inr other ↦ ground (arith, lookup-erase_where p j m)
  ]

  pub lookup-erase :
      (k j : K) (m : Map K V) → lookup j (erase k m) ≡ (if k == j then none else lookup j m)
  unfolding lookup erase
  lookup-erase k j [] = ground arith
  lookup-erase k j ((i, w) ∷ m) =
      ground (arith, e.beq_iff k j, e.beq_iff i k, e.beq_iff i j, lookup-erase k j m)

  pub insert-Distinct : (k : K) (v : V) (m : Map K V) → Distinct m → Distinct (insert k v m)
  unfolding lookup insert
  insert-Distinct k v [] d = (refl, tt)
  insert-Distinct k v ((i, w) ∷ m) d =
      ground (arith, e.beq_iff i k, e.beq_iff k i, lookup-insert k i v m, insert-Distinct k v m d.1)

  pub erase-Distinct : (k : K) (m : Map K V) → Distinct m → Distinct (erase k m)
  unfolding lookup erase
  erase-Distinct k [] d = tt
  erase-Distinct k ((i, w) ∷ m) d = ground (arith, lookup-erase k i m, erase-Distinct k m d.1)

  pub erase_where-Distinct : (p : K → Bool) (m : Map K V) → Distinct m → Distinct (erase_where p m)
  unfolding lookup erase_where
  erase_where-Distinct p [] d = tt
  erase_where-Distinct p ((i, w) ∷ m) d =
      ground (arith, lookup-erase_where p i m, erase_where-Distinct p m d.1)

  pub length-insert :
      (k : K) (v : V) (m : Map K V)
      → length (insert k v m) ≡ elim (lookup k m) [ none ↦ length m + 1 | some _ ↦ length m ]
  unfolding lookup insert
  length-insert k v [] = omega arith
  length-insert k v ((i, w) ∷ m) = ground (arith, length-insert k v m)

  pub erase_absent : (k : K) (m : Map K V) → lookup k m ≡ none → erase k m ≡ m
  unfolding lookup erase
  erase_absent k [] h = refl
  erase_absent k ((i, w) ∷ m) h = ground (arith, erase_absent k m)

  pub length-erase : (k : K) (m : Map K V) → Distinct m → length m ≤ length (erase k m) + 1
  unfolding lookup erase
  length-erase k [] d = omega arith
  length-erase k ((i, w) ∷ m) d =
      ground (arith, e.beq_iff i k, length-erase k m d.1, erase_absent i m d.0)

  pub length-erase_where : (p : K → Bool) (m : Map K V) → length (erase_where p m) ≤ length m
  unfolding erase_where
  length-erase_where p [] = omega arith
  length-erase_where p ((i, w) ∷ m) = ground (arith, length-erase_where p m)
