-- ===== src/Positions/Placed.antt =====
-- internal/liquidation/scanner/scanner.go: every position has a place, when one enters or leaves the
-- queue.
use defi_demo.Base.{
  ℕ, suc, ◌-◌, ◌<◌, ◌≡◌, ◌∙◌, refl, none, some, nat_eq, ◌==◌, arith, inl, inr, Bool-cases,
  get_elem?, length, nat_eqb,
}
use defi_demo.Positions.{Scanner, swap}
use defi_demo.Positions.Heap.{push_back, push, pop_back, remove_at, sift, fix}
use defi_demo.Positions.Indexed.{IsIndexed, IsKnown, index_of-set_index}
use defi_demo.Positions.Ends.{get_elem?-bound, pop_back_known, at_last, removed_last}
use defi_demo.Positions.Kept.{
  sift_keeps, up_keeps, moved_keeps, AllPlaced, PlacedBut, swap_users-AllPlaced, set_index-IsPlaced,
  set_index-PlacedBut,
}

pub fix-AllPlaced : (i : ℕ) (s : Scanner) → AllPlaced s → AllPlaced (fix i s)
unfolding fix
fix-AllPlaced i s h = sift_keeps AllPlaced swap_users-AllPlaced i (length s.queue) s h

push_back-AllPlaced :
    (user : ℕ) (s : Scanner)
    → IsKnown s.positions user
    → PlacedBut user s
    → AllPlaced (push_back user s)
unfolding push_back
push_back-AllPlaced user s known h v = elim (Bool-cases (user == v)) [
  | inl same ↦ inr (
    length s.queue,
    index_of-set_index user v (some (length s.queue)) s.positions known ∙ rw same refl,
  )
  | inr other ↦ set_index-IsPlaced user v (length s.queue) s.positions (h v other)
]

pub push-AllPlaced :
    (user : ℕ) (s : Scanner) → IsKnown s.positions user → PlacedBut user s → AllPlaced (push user s)
unfolding push
push-AllPlaced user s known h =
    up_keeps AllPlaced swap_users-AllPlaced (length s.queue) (push_back user s)
      (push_back-AllPlaced user s known h)

pop_back-PlacedBut :
    (n user : ℕ) (s : Scanner)
    → length s.queue ≡ suc n
    → get_elem? s.queue n ≡ some user
    → AllPlaced s
    → PlacedBut user (pop_back s)
pop_back-PlacedBut n user s size e h v other =
    rw (pop_back_known n user s size e) (set_index-PlacedBut user v none s.positions other (h v))

pub remove_at-PlacedBut :
    (i n user : ℕ) (s : Scanner)
    → IsIndexed s
    → length s.queue ≡ suc n
    → get_elem? s.queue i ≡ some user
    → AllPlaced s
    → PlacedBut user (remove_at i s)
unfolding remove_at
remove_at-PlacedBut i n user s h size e placed =
    let last : length s.queue - 1 ≡ n = omega arith in
    elim (Bool-cases (nat_eqb n i)) [
      | inl same ↦
          rw (remove_at, last, same)
            (pop_back-PlacedBut n user s size (at_last i n user s same e) placed)
      | inr other ↦
          let hi : i < n = ground (arith, get_elem?-bound s.queue i user e) in
          let (long, at_end) = removed_last i n user s h size hi e in
          rw (remove_at, last, other)
            (pop_back-PlacedBut n user (sift i n (swap i n s)) long at_end
              (moved_keeps AllPlaced swap_users-AllPlaced i n n s placed))
    ]
