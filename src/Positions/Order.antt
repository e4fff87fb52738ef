-- ===== src/Positions/Order.antt =====
-- internal/liquidation/scanner/scanner.go: the order of the queue, on the health factors by place.
use defi_demo.Base.{
  ℕ, zero, suc, ◌-◌, ◌*◌, ◌+◌, ◌/◌, ◌<◌, ◌≤◌, ◌≡◌, ◌≢◌, ◌⊎◌, refl, Bool, true, false, Option, none,
  some, arith, nat_eqb, if◌then◌else◌,
}
use defi_demo.Base.Int.{ℤ}
use defi_demo.Positions.{less_factor}

-- `less_factor`, to be used by its two laws.
unfoldable pub before : Option ℤ → Option ℤ → Bool
before a b = less_factor a b

pub before_asym : (a b : Option ℤ) → before a b ≡ true → before b a ≡ false
unfolding before
before_asym none b h = ground arith
before_asym (some x) none h = ground arith
before_asym (some x) (some y) h = ground arith

pub before_trans : (a b c : Option ℤ) → before b a ≡ false → before c b ≡ false → before c a ≡ false
unfolding before
before_trans a b none h k = ground arith
before_trans none none (some z) h k = ground arith
before_trans none (some y) (some z) h k = ground arith
before_trans (some x) none (some z) h k = ground arith
before_trans (some x) (some y) (some z) h k = ground arith

pub before_refl : (a : Option ℤ) → before a a ≡ false
unfolding before
before_refl none = refl
before_refl (some x) = ground arith

abbrev pub parent : ℕ → ℕ
parent c = (c - 1) / 2

-- No place comes before its parent.
abbrev pub IsHeap : ℕ → (ℕ → Option ℤ) → Type 0
IsHeap n f = (c : ℕ) → 0 < c → c < n → before (f c) (f (parent c)) ≡ false

-- The children of `i` do not come before its parent.
abbrev pub IsBridged : ℕ → (ℕ → Option ℤ) → ℕ → Type 0
IsBridged n f i =
    (c : ℕ) → 0 < c → c < n → parent c ≡ i → 0 < i → before (f c) (f (parent i)) ≡ false

-- The order may fail between `i` and its parent only.
pub record IsHeapAbove (n : ℕ) (f : ℕ → Option ℤ) (i : ℕ) : Type 0 where
  pub edges : (c : ℕ) → 0 < c → c < n → c ≢ i → before (f c) (f (parent c)) ≡ false
  pub bridged : IsBridged n f i

-- The order may fail between `i` and its children only.
pub record IsHeapBelow (n : ℕ) (f : ℕ → Option ℤ) (i : ℕ) : Type 0 where
  pub edges : (c : ℕ) → 0 < c → c < n → parent c ≢ i → before (f c) (f (parent c)) ≡ false
  pub bridged : IsBridged n f i

-- The order may fail at `i` in both directions.
pub record IsHeapBut (n : ℕ) (f : ℕ → Option ℤ) (i : ℕ) : Type 0 where
  pub edges : (c : ℕ) → 0 < c → c < n → c ≢ i → parent c ≢ i → before (f c) (f (parent c)) ≡ false
  pub bridged : IsBridged n f i

-- `g` is `f` with the places `i` and `j` exchanged.
abbrev pub Exchanged : (ℕ → Option ℤ) → (ℕ → Option ℤ) → ℕ → ℕ → Type 0
Exchanged f g i j = (k : ℕ) → g k ≡ (if nat_eqb j k then f i else if nat_eqb i k then f j else f k)

-- `j` is the child of `i` that comes first.
pub record IsFirstChild (n : ℕ) (f : ℕ → Option ℤ) (i j : ℕ) : Type 0 where
  pub inside : j < n
  pub child : (j ≡ 2 * i + 1) ⊎ (j ≡ 2 * i + 2)
  pub first : (c : ℕ) → 0 < c → c < n → parent c ≡ i → before (f c) (f j) ≡ false

module _ (n : ℕ) (f g : ℕ → Option ℤ) (i j : ℕ) where
  pub exchange_down :
      IsHeapBut n f i
      → IsFirstChild n f i j
      → before (f j) (f i) ≡ true
      → Exchanged f g i j
      → IsHeapBelow n g j
  exchange_down v s less at = record {
    edges = λ c p q r.
        ground
          (arith, at c, at (parent c), v.edges c, v.bridged j, s.first c, before_asym (f j) (f i));
    bridged = λ c p q r t. ground (arith, at c, at (parent j), v.edges c);
  }

  pub exchange_up :
      IsHeapAbove n f j
      → j < n
      → 0 < j
      → parent j ≡ i
      → before (f j) (f i) ≡ true
      → Exchanged f g i j
      → IsHeapAbove n g i
  exchange_up v inside positive up less at = record {
    edges = λ c p q r. ground (
      arith,
      at c,
      at (parent c),
      v.edges c,
      v.bridged c,
      before_asym (f j) (f i),
      before_trans (f j) (f i) (f c),
    );
    bridged = λ c p q r t.
        ground (
          arith,
          at c,
          at (parent i),
          v.edges c,
          v.edges i,
          before_trans (f (parent i)) (f i) (f c),
        );
  }

  -- Nothing to exchange: the children of `i` do not come before it.
  pub settled_down :
      IsHeapBut n f i → IsFirstChild n f i j → before (f j) (f i) ≡ false → IsHeapAbove n f i
  settled_down v s less = record {
    edges = λ c p q r. ground (arith, v.edges c, s.first c, before_trans (f i) (f j) (f c));
    bridged = v.bridged;
  }

module _ (n : ℕ) (f : ℕ → Option ℤ) (i : ℕ) where
  pub leaf_down : IsHeapBut n f i → n ≤ 2 * i + 1 → IsHeapAbove n f i
  leaf_down v leaf = record { edges = λ c p q r. ground (arith, v.edges c); bridged = v.bridged }

  pub both-IsHeap : IsHeapAbove n f i → IsHeapBelow n f i → IsHeap n f
  both-IsHeap v w c p q = ground (arith, v.edges c, w.edges c)

  pub below_but : IsHeapBelow n f i → IsHeapBut n f i
  below_but v = record { edges = λ c p q r t. v.edges c p q t; bridged = v.bridged }

  pub top-IsHeap : IsHeapAbove n f i → i ≡ 0 → IsHeap n f
  top-IsHeap v top c p q = ground (arith, v.edges c)

  pub settled_up : IsHeapAbove n f i → before (f i) (f (parent i)) ≡ false → IsHeap n f
  settled_up v less c p q = ground (arith, v.edges c)

  -- A heap of which the key at `i` was changed.
  pub changed-IsHeapBut :
      (g : ℕ → Option ℤ)
      → IsHeap n f
      → ((k : ℕ) → k ≢ i → k < n → g k ≡ f k)
      → i < n
      → IsHeapBut n g i
  changed-IsHeapBut g h at inside = record {
    edges = λ c p q r t. ground (arith, at c, at (parent c), h c);
    bridged = λ c p q r t.
        ground (arith, at c, at (parent i), h c, h i, before_trans (f (parent i)) (f i) (f c));
  }

first_below :
    (k n : ℕ) (f : ℕ → Option ℤ) (i : ℕ) → IsHeap n f → i < k → i < n → before (f i) (f 0) ≡ false
first_below zero n f i h below inside = absurd (omega arith)
first_below (suc k) n f zero h below inside = before_refl (f 0)
first_below (suc k) n f (suc i) h below inside =
    before_trans (f 0) (f (parent (suc i))) (f (suc i))
      (first_below k n f (parent (suc i)) h (omega arith) (omega arith))
      (h (suc i) (omega arith) inside)

-- Nothing comes before the first place of a heap.
pub before-first :
    (n : ℕ) (f : ℕ → Option ℤ) (i : ℕ) → IsHeap n f → i < n → before (f i) (f 0) ≡ false
before-first n f i h inside = first_below (suc i) n f i h (omega arith) inside
