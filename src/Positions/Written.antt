-- ===== src/Positions/Written.antt =====
-- internal/liquidation/scanner/scanner.go: the order of the queue when a position is written, enters
-- or leaves.
use defi_demo.Base.{
  ℕ, suc, ◌-◌, ◌<◌, ◌≡◌, ◌≢◌, refl, ap, ◌∙◌, false, Option, none, some, nat_eq, ◌==◌, arith, inl,
  inr, Bool-cases, get_elem?, length, nat_eqb,
}
use defi_demo.Base.Assoc.{Map, insert, erase, lookup-erase}
use defi_demo.Positions.{UserPosition, Scanner, swap}
use defi_demo.Positions.Heap.{push_back, push, pop_back, remove_at, sift, fix}
use defi_demo.Positions.Indexed.{IsIndexed, is_at, index_of}
use defi_demo.Positions.Ends.{
  get_elem?-snoc, get_elem?-take, get_elem?-bound, push_back-length, pop_back_known, at_last,
  removed_last,
}
use defi_demo.Positions.Sift.{swap-length}
use defi_demo.Positions.Ranks.{
  rank, factor_in, factor_of, factor_of-insert, factor_in-set_index, rank-swap,
}
use defi_demo.Positions.Heaped.{sift-IsHeap, up-IsHeap}
use defi_demo.Positions.Order.{parent, IsHeap, IsHeapAbove, IsHeapBut, changed-IsHeapBut}

other_way : (v user : ℕ) → (v == user) ≡ false → (user == v) ≡ false
other_way v user h = ground arith

-- A user who is not at a place does not matter there.
factor_in-insert :
    (user : ℕ) (p : UserPosition) (m : Map ℕ UserPosition) (entry : Option ℕ)
    → is_at entry user ≡ false
    → factor_in (insert user p m) entry ≡ factor_in m entry
unfolding factor_in
factor_in-insert user p m none h = refl
factor_in-insert user p m (some v) h = factor_of-insert user v p m ∙ rw (other_way v user h) refl

factor_in-erase :
    (user : ℕ) (m : Map ℕ UserPosition) (entry : Option ℕ)
    → is_at entry user ≡ false
    → factor_in (erase user m) entry ≡ factor_in m entry
unfolding factor_in factor_of
factor_in-erase user m none h = refl
factor_in-erase user m (some v) h = rw (lookup-erase, other_way v user h) refl

-- The places that are not the user's.
elsewhere :
    (user i k : ℕ) (s : Scanner)
    → IsIndexed s
    → index_of s.positions user ≡ some i
    → k ≢ i
    → is_at (get_elem? s.queue k) user ≡ false
elsewhere user i k s h e other = h k user ∙ ap (λ (o : Option ℕ). is_at o k) e ∙ ground arith

nowhere :
    (user k : ℕ) (s : Scanner)
    → IsIndexed s
    → index_of s.positions user ≡ none
    → is_at (get_elem? s.queue k) user ≡ false
nowhere user k s h e = h k user ∙ ap (λ (o : Option ℕ). is_at o k) e

-- A changed position at place `i`, and a position without a place.
pub write-IsHeapBut :
    (user i : ℕ) (p : UserPosition) (s : Scanner)
    → IsIndexed s
    → index_of s.positions user ≡ some i
    → i < length s.queue
    → IsHeap (length s.queue) (rank s)
    → IsHeapBut (length s.queue) (rank (record s { positions = insert user p s.positions })) i
unfolding rank
write-IsHeapBut user i p s h e inside heap =
    changed-IsHeapBut (length s.queue) (rank s) i
      (rank (record s { positions = insert user p s.positions })) heap
      (λ k other below. factor_in-insert user p s.positions _ (elsewhere user i k s h e other))
      inside

pub write-IsHeap :
    (user : ℕ) (p : UserPosition) (s : Scanner)
    → IsIndexed s
    → index_of s.positions user ≡ none
    → IsHeap (length s.queue) (rank s)
    → IsHeap (length s.queue) (rank (record s { positions = insert user p s.positions }))
unfolding rank
write-IsHeap user p s h e heap c positive below =
    rw
      (
        factor_in-insert user p s.positions (get_elem? s.queue c) (nowhere user c s h e),
        factor_in-insert user p s.positions (get_elem? s.queue (parent c))
            (nowhere user (parent c) s h e),
      )
      (heap c positive below)

pub erase-IsHeap :
    (user n : ℕ) (s : Scanner)
    → IsIndexed s
    → index_of s.positions user ≡ none
    → IsHeap n (rank s)
    → IsHeap n (rank (record s { positions = erase user s.positions }))
unfolding rank
erase-IsHeap user n s h e heap c positive below =
    rw
      (
        factor_in-erase user s.positions (get_elem? s.queue c) (nowhere user c s h e),
        factor_in-erase user s.positions (get_elem? s.queue (parent c))
            (nowhere user (parent c) s h e),
      )
      (heap c positive below)

pub fix-IsHeap :
    (i : ℕ) (s : Scanner)
    → i < length s.queue
    → IsHeapBut (length s.queue) (rank s) i
    → IsHeap (length s.queue) (rank (fix i s))
unfolding fix
fix-IsHeap i s inside v = sift-IsHeap (length s.queue) i s (omega arith) inside v

rank-push_back :
    (user k : ℕ) (s : Scanner) → k < length s.queue → rank (push_back user s) k ≡ rank s k
unfolding rank push_back
rank-push_back user k s below =
    let earlier : (length s.queue == k) ≡ false = ground arith in
    rw (get_elem?-snoc s.queue user k, earlier)
      (factor_in-set_index user (some (length s.queue)) (get_elem? s.queue k) s.positions)

push_back-IsHeapAbove :
    (user : ℕ) (s : Scanner)
    → IsHeap (length s.queue) (rank s)
    → IsHeapAbove (suc (length s.queue)) (rank (push_back user s)) (length s.queue)
push_back-IsHeapAbove user s heap = record {
  edges =
      λ c p q r. ground (arith, rank-push_back user c s, rank-push_back user (parent c) s, heap c);
  bridged = λ c p q r t. absurd (omega arith);
}

pub push-IsHeap :
    (user : ℕ) (s : Scanner)
    → IsHeap (length s.queue) (rank s)
    → IsHeap (suc (length s.queue)) (rank (push user s))
unfolding push
push-IsHeap user s heap =
    up-IsHeap (suc (length s.queue)) (length s.queue) (push_back user s)
      (omega (arith, push_back-length user s)) (omega arith) (push_back-IsHeapAbove user s heap)

rank-pop_back :
    (n user k : ℕ) (s : Scanner)
    → length s.queue ≡ suc n
    → get_elem? s.queue n ≡ some user
    → k < n
    → rank (pop_back s) k ≡ rank s k
unfolding rank
rank-pop_back n user k s size e below =
    let earlier : (n == k) ≡ false = ground arith in
    rw (pop_back_known n user s size e) (
      rw (get_elem?-take s.queue n k size, earlier)
        (factor_in-set_index user none (get_elem? s.queue k) s.positions))

pop_back-IsHeap :
    (n user : ℕ) (s : Scanner)
    → length s.queue ≡ suc n
    → get_elem? s.queue n ≡ some user
    → IsHeap n (rank s)
    → IsHeap n (rank (pop_back s))
pop_back-IsHeap n user s size e heap c positive below =
    rw
      (
        rank-pop_back n user c s size e below,
        rank-pop_back n user (parent c) s size e (omega arith),
      )
      (heap c positive below)

-- The last position at place `i`, and the order among the places before the last.
swap-IsHeapBut :
    (i n : ℕ) (s : Scanner)
    → length s.queue ≡ suc n
    → i < n
    → IsHeap (length s.queue) (rank s)
    → IsHeapBut n (rank (swap i n s)) i
swap-IsHeapBut i n s size inside heap =
    changed-IsHeapBut n (rank s) i (rank (swap i n s))
      (λ c positive below. heap c positive (omega arith))
      (λ k other below. ground (arith, rank-swap i n s (omega arith) (omega arith) k)) inside

pub remove_at-IsHeap :
    (i n user : ℕ) (s : Scanner)
    → IsIndexed s
    → length s.queue ≡ suc n
    → get_elem? s.queue i ≡ some user
    → IsHeap (length s.queue) (rank s)
    → IsHeap n (rank (remove_at i s))
unfolding remove_at
remove_at-IsHeap i n user s h size e heap =
    let last : length s.queue - 1 ≡ n = omega arith in
    elim (Bool-cases (nat_eqb n i)) [
      | inl same ↦
          rw (remove_at, last, same)
            (pop_back-IsHeap n user s size (at_last i n user s same e)
              (λ c positive below. heap c positive (omega arith)))
      | inr other ↦
          let hi : i < n = ground (arith, get_elem?-bound s.queue i user e) in
          let (long, at_end) = removed_last i n user s h size hi e in
          rw (remove_at, last, other)
            (pop_back-IsHeap n user (sift i n (swap i n s)) long at_end (
              sift-IsHeap n i (swap i n s) (omega (arith, swap-length i n s)) hi
                (swap-IsHeapBut i n s size hi heap)))
    ]
