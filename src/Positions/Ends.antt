-- ===== src/Positions/Ends.antt =====
-- internal/liquidation/scanner/scanner.go: the heap indices when a position enters or leaves the
-- queue.
use defi_demo.Base.{
  ℕ, zero, suc, ◌-◌, ◌<◌, ◌≡◌, refl, sym, subst, ◌∙◌, true, Option, none, some, List, [], ◌∷◌, ◌++◌,
  nat_eq, ◌==◌, if◌then◌else◌, arith, inl, inr, Bool-cases, get_elem?, take, length, length-append,
  nat_eqb,
}
use defi_demo.Base.Assoc.{beq_refl}
use defi_demo.Positions.{Scanner, set_index, swap, swap_users}
use defi_demo.Positions.Heap.{up, push_back, push, pop_back, remove_at, sift, fix}
use defi_demo.Positions.Indexed.{
  IsIndexed, IsKnown, is_at, index_of, index_of-set_index, index_of-IsKnown, place_of,
  swap-IsIndexed, swapped_get,
}
use defi_demo.Positions.Sift.{up_on-IsSift, sift-IsSift, swap-length}

pub get_elem?-snoc :
    (xs : List ℕ) (x k : ℕ)
    → get_elem? (xs ++ (x ∷ [])) k ≡ (if length xs == k then some x else get_elem? xs k)
get_elem?-snoc [] x zero = refl
get_elem?-snoc [] x (suc k) = ground arith
get_elem?-snoc (y ∷ xs) x zero = ground arith
get_elem?-snoc (y ∷ xs) x (suc k) = ground (arith, get_elem?-snoc xs x k)

get_elem?-end : (xs : List ℕ) → get_elem? xs (length xs) ≡ none
get_elem?-end [] = refl
get_elem?-end (x ∷ xs) = get_elem?-end xs

pub get_elem?-bound : (xs : List ℕ) (i a : ℕ) → get_elem? xs i ≡ some a → i < length xs
get_elem?-bound [] i a h = ground arith
get_elem?-bound (x ∷ xs) zero a h = omega arith
get_elem?-bound (x ∷ xs) (suc i) a h = omega (arith, get_elem?-bound xs i a h)

pub get_elem?-take :
    (xs : List ℕ) (n k : ℕ)
    → length xs ≡ suc n
    → get_elem? (take n xs) k ≡ (if n == k then none else get_elem? xs k)
get_elem?-take [] n k h = ground arith
get_elem?-take (x ∷ []) zero zero h = refl
get_elem?-take (x ∷ []) zero (suc k) h = ground arith
get_elem?-take (x ∷ (y ∷ xs)) zero k h = absurd (omega arith)
get_elem?-take (x ∷ xs) (suc n) zero h = ground arith
get_elem?-take (x ∷ xs) (suc n) (suc k) h = ground (arith, get_elem?-take xs n k (omega arith))

length-take : (xs : List ℕ) (n : ℕ) → length xs ≡ suc n → length (take n xs) ≡ n
length-take [] n h = absurd (omega arith)
length-take (x ∷ xs) zero h = refl
length-take (x ∷ xs) (suc n) h = omega (arith, length-take xs n (omega arith))

-- A new last entry.
push_pointwise :
    (get index : ℕ → Option ℕ) (n a k user : ℕ)
    → ((m x : ℕ) → is_at (get m) x ≡ is_at (index x) m)
    → get n ≡ none
    → index a ≡ none
    → is_at (if n == k then some a else get k) user
      ≡ is_at (if a == user then some n else index user) k
push_pointwise get index n a k user h hn ha = ground (arith, h n a, h k user, h n user, h k a)

-- The last entry gone.
pop_pointwise :
    (get index : ℕ → Option ℕ) (n a k user : ℕ)
    → ((m x : ℕ) → is_at (get m) x ≡ is_at (index x) m)
    → get n ≡ some a
    → is_at (if n == k then none else get k) user ≡ is_at (if a == user then none else index user) k
pop_pointwise get index n a k user h hn = ground (arith, h n a, h k user, h n user, h k a)

push_back-IsIndexed :
    (user : ℕ) (s : Scanner)
    → IsIndexed s
    → IsKnown s.positions user
    → index_of s.positions user ≡ none
    → IsIndexed (push_back user s)
unfolding push_back
push_back-IsIndexed user s h known outside k v =
    rw
      (
        get_elem?-snoc s.queue user k,
        index_of-set_index user v (some (length s.queue)) s.positions known,
      )
      (push_pointwise (get_elem? s.queue) (index_of s.positions) (length s.queue) user k v h
        (get_elem?-end s.queue) outside)

pub push_back-length :
    (user : ℕ) (s : Scanner) → length (push_back user s).queue ≡ suc (length s.queue)
unfolding push_back
push_back-length user s = omega (arith, length-append s.queue (user ∷ []))

pub push-IsIndexed :
    (user : ℕ) (s : Scanner)
    → IsIndexed s
    → IsKnown s.positions user
    → index_of s.positions user ≡ none
    → IsIndexed (push user s) × (length (push user s).queue ≡ suc (length s.queue))
unfolding push up
push-IsIndexed user s h known outside =
    let n = length s.queue in
    let (indexed, size, _) =
      up_on-IsSift (suc n) (suc n) n (push_back user s) (omega arith)
        (push_back-IsIndexed user s h known outside) in
    (indexed, size ∙ push_back-length user s)

pub fix-IsIndexed :
    (i : ℕ) (s : Scanner)
    → i < length s.queue
    → IsIndexed s
    → IsIndexed (fix i s) × (length (fix i s).queue ≡ length s.queue)
unfolding fix
fix-IsIndexed i s hi h =
    let (indexed, size, _) = sift-IsSift i (length s.queue) s hi h in (indexed, size)

-- What leaves the queue at its end.
abbrev pub IsPopped : ℕ → ℕ → Scanner → Type 0
IsPopped n user after =
    IsIndexed after × (length after.queue ≡ n) × (index_of after.positions user ≡ none)

pub pop_back_known :
    (n user : ℕ) (s : Scanner)
    → length s.queue ≡ suc n
    → get_elem? s.queue n ≡ some user
    → pop_back s ≡ record { positions = set_index user none s.positions; queue = take n s.queue }
unfolding pop_back
pop_back_known n user s size e =
    let last : length s.queue - 1 ≡ n = omega arith in rw (pop_back, last, e) (rw last refl)

pop_back-IsPopped :
    (n user : ℕ) (s : Scanner)
    → IsIndexed s
    → length s.queue ≡ suc n
    → get_elem? s.queue n ≡ some user
    → IsPopped n user (pop_back s)
pop_back-IsPopped n user s h size e =
    let known = index_of-IsKnown s.positions user n (place_of n user s h e) in
    rw (pop_back_known n user s size e) (
      λ (k v : ℕ).
          rw (get_elem?-take s.queue n k size, index_of-set_index user v none s.positions known)
            (pop_pointwise (get_elem? s.queue) (index_of s.positions) n user k v h e),
      length-take s.queue n size,
      index_of-set_index user user none s.positions known ∙ rw (beq_refl user) refl,
    )

pub get_elem?-inside : (xs : List ℕ) (n : ℕ) → n < length xs → (b : ℕ) × (get_elem? xs n ≡ some b)
get_elem?-inside [] n h = absurd (omega arith)
get_elem?-inside (x ∷ xs) zero h = (x, refl)
get_elem?-inside (x ∷ xs) (suc n) h = get_elem?-inside xs n (omega arith)

swap-last :
    (i n user : ℕ) (s : Scanner)
    → get_elem? s.queue i ≡ some user
    → n < length s.queue
    → get_elem? (swap i n s).queue n ≡ some user
unfolding swap swap_users
swap-last i n user s hi hn =
    let (b, hb) = get_elem?-inside s.queue n hn in
    rw (swap, hi, hb) (swapped_get s.queue i n user b n hi hb ∙ rw (beq_refl n) refl)

pub at_last :
    (i n user : ℕ) (s : Scanner)
    → nat_eqb n i ≡ true
    → get_elem? s.queue i ≡ some user
    → get_elem? s.queue n ≡ some user
at_last i n user s same e =
    subst (λ (k : ℕ). get_elem? s.queue k ≡ some user) (sym ((nat_eq.beq_iff n i).0 same)) e

-- The removed position is the last one when the order is restored.
pub removed_last :
    (i n user : ℕ) (s : Scanner)
    → IsIndexed s
    → length s.queue ≡ suc n
    → i < n
    → get_elem? s.queue i ≡ some user
    → (length (sift i n (swap i n s)).queue ≡ suc n)
      × (get_elem? (sift i n (swap i n s)).queue n ≡ some user)
removed_last i n user s h size hi e =
    let swapped = swap i n s in
    let (indexed, long, above) = sift-IsSift i n swapped hi (swap-IsIndexed i n s h) in
    (
      long ∙ swap-length i n s ∙ size,
      subst (λ (k : ℕ). get_elem? (sift i n swapped).queue k ≡ get_elem? swapped.queue k)
            (omega arith) (above 0)
          ∙ swap-last i n user s e (omega (arith, size)),
    )

pub remove_at-IsPopped :
    (i n user : ℕ) (s : Scanner)
    → IsIndexed s
    → length s.queue ≡ suc n
    → get_elem? s.queue i ≡ some user
    → IsPopped n user (remove_at i s)
unfolding remove_at
remove_at-IsPopped i n user s h size e =
    let last : length s.queue - 1 ≡ n = omega arith in
    elim (Bool-cases (nat_eqb n i)) [
      | inl same ↦
          rw (remove_at, last, same) (pop_back-IsPopped n user s h size (at_last i n user s same e))
      | inr other ↦
          let hi : i < n = ground (arith, get_elem?-bound s.queue i user e) in
          let (long, at_end) = removed_last i n user s h size hi e in
          rw (remove_at, last, other)
            (pop_back-IsPopped n user (sift i n (swap i n s))
              (sift-IsSift i n (swap i n s) hi (swap-IsIndexed i n s h)).0 long at_end)
    ]
