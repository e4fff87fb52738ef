-- ===== src/Scanner/Ordered.antt =====
-- internal/liquidation/scanner/scanner.go: the order of the queue through the scanner's operations.
use defi_demo.Base.{
  ℕ, suc, ◌-◌, ◌≡◌, refl, ap, sym, subst, ◌∙◌, false, Option, none, some, [], ◌∷◌, nat_eq, ◌==◌,
  arith, inl, inr, Option-cases, get_elem?, length,
}
use defi_demo.Base.Assoc.{Map, lookup, insert, erase, lookup-insert_self, lookup-erase, beq_refl}
use defi_demo.Base.Int.{ℤ}
use defi_demo.Positions.{Scanner, UserPosition}
use defi_demo.Positions.Heap.{fix, push, remove_at}
use defi_demo.Positions.Indexed.{IsIndexed, IsKnown, is_at, is_at-some, index_of}
use defi_demo.Positions.Ends.{get_elem?-bound, fix-IsIndexed, push-IsIndexed, remove_at-IsPopped}
use defi_demo.Positions.Order.{IsHeap}
use defi_demo.Positions.Ranks.{rank}
use defi_demo.Positions.Kept.{AllPlaced, PlacedBut, insert-IsPlaced, erase-IsPlaced}
use defi_demo.Positions.Written.{
  write-IsHeapBut, write-IsHeap, erase-IsHeap, fix-IsHeap, push-IsHeap, remove_at-IsHeap,
}
use defi_demo.Positions.Placed.{fix-AllPlaced, push-AllPlaced, remove_at-PlacedBut}
use defi_demo.Scanner.Consistent.{write-IsIndexed, erase-IsIndexed}
use defi_demo.Scanner.Health.{calculate_health_factor-total}
use defi_demo.Scanner.{
  IndexProvider, updated, fix_if, set_position, remove_if, remove_position, refresh, refresh_list,
  refresh_all,
}

-- The queue and the remembered places agree, the queue is a heap, and every position is in it.
pub record IsQueue (s : Scanner) : Type 0 where
  pub indexed : IsIndexed s
  pub ordered : IsHeap (length s.queue) (rank s)
  pub placed : AllPlaced s

pub entry_at :
    (s : Scanner) (user i : ℕ)
    → IsIndexed s
    → index_of s.positions user ≡ some i
    → get_elem? s.queue i ≡ some user
entry_at s user i h e =
    is_at-some (get_elem? s.queue i) user
      (h i user ∙ ap (λ (o : Option ℕ). is_at o i) e ∙ beq_refl i)

-- A position in the map that is written in place, and then sifted.
rewritten-IsQueue :
    (user : ℕ) (p : UserPosition) (s : Scanner)
    → IsQueue s
    → p.heap_index ≡ index_of s.positions user
    → IsKnown s.positions user
    → IsQueue (fix_if p.heap_index (record s { positions = insert user p s.positions }))
rewritten-IsQueue user p s v same known =
    let wrote = record s { positions = insert user p s.positions } in
    let indexed = write-IsIndexed user p s v.indexed same in
    elim (v.placed user) [
      | inl absent ↦ absurd (ground (arith, known.1))
      | inr (i, place) ↦
          let inside = get_elem?-bound s.queue i user (entry_at s user i v.indexed place) in
          let at : p.heap_index ≡ some i = same ∙ place in
          let placed = λ (w : ℕ).
            insert-IsPlaced user w p s.positions (λ x. ground (arith, at)) (λ x. v.placed w) in
          let fixed : IsQueue (fix i wrote) = record {
            indexed = (fix-IsIndexed i wrote inside indexed).0;
            ordered = rw (fix-IsIndexed i wrote inside indexed).1 (
                fix-IsHeap i wrote inside
                  (write-IsHeapBut user i p s v.indexed place inside v.ordered));
            placed = fix-AllPlaced i wrote placed;
          } in
          subst (λ (o : Option ℕ). IsQueue (fix_if o wrote)) (sym at) fixed
    ]

new-IsQueue :
    (p : UserPosition) (s : Scanner)
    → IsQueue s
    → lookup p.user_address s.positions ≡ none
    → IsQueue (
        push p.user_address (record s {
          positions = insert p.user_address (record p { heap_index = none }) s.positions;
        }))
new-IsQueue p s v fresh =
    let user = p.user_address in
    let q = record p { heap_index = none } in
    let wrote = record s { positions = insert user q s.positions } in
    let outside : index_of s.positions user ≡ none = rw (index_of, fresh) refl in
    let known : IsKnown wrote.positions user = (q, lookup-insert_self user q s.positions) in
    let indexed = write-IsIndexed user q s v.indexed (sym outside) in
    let (pushed, size) =
      push-IsIndexed user wrote indexed known
        (rw (index_of, lookup-insert_self user q s.positions) refl) in
    record {
      indexed = pushed;
      ordered =
          rw size (push-IsHeap user wrote (write-IsHeap user q s v.indexed outside v.ordered));
      placed = push-AllPlaced user wrote known (λ (w : ℕ) (other : (user == w) ≡ false).
          insert-IsPlaced user w q s.positions (λ x. other) (λ x. v.placed w));
    }

-- SetPosition keeps the queue in order: the queue holds a user at a place exactly when the position
-- of the user remembers that place, no position comes before its parent by health factor, and every
-- position of the map has a place.
pub set_position-IsQueue : (p : UserPosition) (s : Scanner) → IsQueue s → IsQueue (set_position p s)
unfolding set_position
set_position-IsQueue p s v = elim (Option-cases (lookup p.user_address s.positions)) [
  | inl fresh ↦ rw (set_position, fresh) (new-IsQueue p s v fresh)
  | inr (old, e) ↦
      rw (set_position, e)
        (rewritten-IsQueue p.user_address (updated old p) s v (rw (index_of, e) refl) (old, e))
]

erased-IsQueue :
    (user : ℕ) (after : Scanner)
    → IsIndexed after
    → index_of after.positions user ≡ none
    → IsHeap (length after.queue) (rank after)
    → PlacedBut user after
    → IsQueue (record after { positions = erase user after.positions })
erased-IsQueue user after indexed outside heap placed = record {
  indexed = erase-IsIndexed user after indexed outside;
  ordered = erase-IsHeap user (length after.queue) after indexed outside heap;
  placed = λ w. erase-IsPlaced user w after.positions (placed w);
}

abbrev erased : ℕ → Scanner → Scanner
erased user after = record after { positions = erase user after.positions }

-- RemovePosition keeps the queue in order, in the sense of places, health factors and completeness,
-- and afterwards the user is in the map no more.
pub remove_position-IsQueue :
    (user : ℕ) (s : Scanner)
    → IsQueue s
    → IsQueue (remove_position user s) × (lookup user (remove_position user s).positions ≡ none)
unfolding remove_position
remove_position-IsQueue user s v = elim (Option-cases (lookup user s.positions)) [
  | inl absent ↦ rw (remove_position, absent) (v, absent)
  | inr (p, e) ↦ elim (v.placed user) [
    | inl absent ↦ absurd (ground (arith, e))
    | inr (i, place) ↦
        let there = entry_at s user i v.indexed place in
        let n = length s.queue - 1 in
        let size : length s.queue ≡ suc n = omega (arith, get_elem?-bound s.queue i user there) in
        let (popped, shorter, outside) = remove_at-IsPopped i n user s v.indexed size there in
        let removed =
          erased-IsQueue user (remove_at i s) popped outside
            (rw shorter (remove_at-IsHeap i n user s v.indexed size there v.ordered))
            (remove_at-PlacedBut i n user s v.indexed size there v.placed) in
        let at : p.heap_index ≡ some i = rw (index_of, e) at place in
        rw (remove_position, e)
          (subst
            (λ (o : Option ℕ).
              IsQueue (erased user (remove_if o s))
              × (lookup user (erased user (remove_if o s)).positions ≡ none))
            (sym at)
            (removed, lookup-erase user user (remove_at i s).positions ∙ rw (beq_refl user) refl))
  ]
]

pub refresh-IsQueue :
    (provider : IndexProvider) (now : ℤ) (user : ℕ) (s : Scanner)
    → IsQueue s
    → (after : Scanner) × (refresh provider now user s ≡ some after) × IsQueue after
unfolding refresh
refresh-IsQueue provider now user s v = elim (Option-cases (lookup user s.positions)) [
  | inl absent ↦ (s, rw (refresh, absent) refl, v)
  | inr (p, e) ↦
      let (hf, total) = calculate_health_factor-total p provider now in
      let q = record p { health_factor = some hf } in
      (
        fix_if p.heap_index (record s { positions = insert user q s.positions }),
        rw (refresh, e, total) refl,
        rewritten-IsQueue user q s v (rw (index_of, e) refl) (p, e),
      )
]

refresh_list-IsQueue :
    (provider : IndexProvider) (now : ℤ) (m : Map ℕ UserPosition) (s : Scanner)
    → IsQueue s
    → (after : Scanner) × (refresh_list provider now m s ≡ some after) × IsQueue after
unfolding refresh_list
refresh_list-IsQueue provider now [] s v = (s, refl, v)
refresh_list-IsQueue provider now ((user, p) ∷ m) s v =
    let (s1, e, v1) = refresh-IsQueue provider now user s v in
    let (s2, f, v2) = refresh_list-IsQueue provider now m s1 v1 in (s2, rw e f, v2)

-- RefreshAll returns for every provider and time and keeps the queue in the same sense.
pub refresh_all-IsQueue :
    (provider : IndexProvider) (now : ℤ) (s : Scanner)
    → IsQueue s
    → (after : Scanner) × (refresh_all provider now s ≡ some after) × IsQueue after
refresh_all-IsQueue provider now s = refresh_list-IsQueue provider now s.positions s
