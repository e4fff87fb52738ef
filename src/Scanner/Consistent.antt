-- ===== src/Scanner/Consistent.antt =====
-- internal/liquidation/scanner/scanner.go: the scanner's operations on queue and heap indices.
use defi_demo.Base.{
  ℕ, suc, ◌-◌, ◌≡◌, refl, ap, sym, ◌∙◌, Option, none, some, [], ◌∷◌, nat_eq, ◌==◌, arith, inl, inr,
  Bool-cases, Option-cases, get_elem?, length,
}
use defi_demo.Base.Assoc.{
  Map, lookup, insert, erase, lookup-insert, lookup-insert_self, lookup-erase, beq_refl,
}
use defi_demo.Base.Int.{ℤ}
use defi_demo.Positions.{Scanner, UserPosition}
use defi_demo.Positions.Indexed.{IsIndexed, is_at, is_at-some, index_of}
use defi_demo.Positions.Ends.{push-IsIndexed, fix-IsIndexed, remove_at-IsPopped, get_elem?-bound}
use defi_demo.Scanner.Health.{calculate_health_factor-total}
use defi_demo.Scanner.{
  IndexProvider, updated, fix_if, set_position, remove_if, remove_position, refresh, refresh_list,
  refresh_all,
}

-- The entry of a position that knows its place.
pub entry_of :
    (s : Scanner) (user i : ℕ) (p : UserPosition)
    → IsIndexed s
    → lookup user s.positions ≡ some p
    → p.heap_index ≡ some i
    → get_elem? s.queue i ≡ some user
entry_of s user i p h e f =
    let g : index_of s.positions user ≡ some i = rw (index_of, e) f in
    is_at-some (get_elem? s.queue i) user
      (h i user ∙ ap (λ (o : Option ℕ). is_at o i) g ∙ beq_refl i)

-- A position that is written with its heap index kept.
index_of-insert :
    (user v : ℕ) (p : UserPosition) (m : Map ℕ UserPosition)
    → p.heap_index ≡ index_of m user
    → index_of (insert user p m) v ≡ index_of m v
index_of-insert user v p m e =
    rw (index_of, lookup-insert)
      (elim (Bool-cases (user == v)) [
        | inl same ↦ rw same (e ∙ ap (index_of m) ((nat_eq.beq_iff user v).0 same))
        | inr other ↦ rw other refl
      ])

pub write-IsIndexed :
    (user : ℕ) (p : UserPosition) (s : Scanner)
    → IsIndexed s
    → p.heap_index ≡ index_of s.positions user
    → IsIndexed (record s { positions = insert user p s.positions })
write-IsIndexed user p s h e k v =
    h k v ∙ ap (λ (o : Option ℕ). is_at o k) (sym (index_of-insert user v p s.positions e))

fix_if-IsIndexed :
    (user : ℕ) (p : UserPosition) (s : Scanner)
    → IsIndexed s
    → lookup user s.positions ≡ some p
    → IsIndexed (fix_if p.heap_index s) × (length (fix_if p.heap_index s).queue ≡ length s.queue)
fix_if-IsIndexed user p s h e = elim (Option-cases p.heap_index) [
  | inl outside ↦ rw outside (h, refl)
  | inr (i, inside) ↦
      rw inside
        (fix-IsIndexed i s (get_elem?-bound s.queue i user (entry_of s user i p h e inside)) h)
]

-- SetPosition keeps the heap consistent: if the queue holds a user at a place exactly when the
-- position of the user remembers that place, so it does afterwards, for a new user, who makes the
-- queue one longer, and for a known one, who leaves its length.
pub set_position-IsIndexed :
    (p : UserPosition) (s : Scanner)
    → IsIndexed s
    → IsIndexed (set_position p s)
      × (length (set_position p s).queue ≡ elim (lookup p.user_address s.positions) [
        | none ↦ suc (length s.queue)
        | some old ↦ length s.queue
      ])
unfolding set_position
set_position-IsIndexed p s h = elim (Option-cases (lookup p.user_address s.positions)) [
  | inl fresh ↦
      rw (set_position, fresh)
        (let user = p.user_address in
          let q = record p { heap_index = none } in
          let outside : q.heap_index ≡ index_of s.positions user = rw (index_of, fresh) refl in
          push-IsIndexed user (record s { positions = insert user q s.positions })
            (write-IsIndexed user q s h outside) (q, lookup-insert_self user q s.positions)
            (rw (index_of, lookup-insert_self user q s.positions) refl))
  | inr (old, e) ↦
      rw (set_position, e)
        (let user = p.user_address in
          let q = updated old p in
          let same : q.heap_index ≡ index_of s.positions user = rw (index_of, e) refl in
          fix_if-IsIndexed user q (record s { positions = insert user q s.positions })
            (write-IsIndexed user q s h same) (lookup-insert_self user q s.positions))
]

index_of-erase :
    (user v : ℕ) (m : Map ℕ UserPosition)
    → index_of m user ≡ none
    → index_of (erase user m) v ≡ index_of m v
index_of-erase user v m e =
    rw (index_of, lookup-erase)
      (elim (Bool-cases (user == v)) [
        | inl same ↦ rw same (sym e ∙ ap (index_of m) ((nat_eq.beq_iff user v).0 same))
        | inr other ↦ rw other refl
      ])

pub remove_if-IsIndexed :
    (user : ℕ) (p : UserPosition) (s : Scanner)
    → IsIndexed s
    → lookup user s.positions ≡ some p
    → IsIndexed (remove_if p.heap_index s)
      × (index_of (remove_if p.heap_index s).positions user ≡ none)
remove_if-IsIndexed user p s h e = elim (Option-cases p.heap_index) [
  | inl outside ↦ rw outside (h, rw (index_of, e) outside)
  | inr (i, inside) ↦
      let at = entry_of s user i p h e inside in
      let n = length s.queue - 1 in
      let size : length s.queue ≡ suc n = omega (arith, get_elem?-bound s.queue i user at) in
      let (indexed, _, gone) = remove_at-IsPopped i n user s h size at in rw inside (indexed, gone)
]

pub erase-IsIndexed :
    (user : ℕ) (after : Scanner)
    → IsIndexed after
    → index_of after.positions user ≡ none
    → IsIndexed (record after { positions = erase user after.positions })
erase-IsIndexed user after indexed outside k v =
    indexed k v
    ∙ ap (λ (o : Option ℕ). is_at o k) (sym (index_of-erase user v after.positions outside))

-- RemovePosition keeps the queue and the remembered places consistent, for a known and an unknown
-- user, and the user is in the map no more.
pub remove_position-IsIndexed :
    (user : ℕ) (s : Scanner)
    → IsIndexed s
    → IsIndexed (remove_position user s) × (lookup user (remove_position user s).positions ≡ none)
unfolding remove_position
remove_position-IsIndexed user s h = elim (Option-cases (lookup user s.positions)) [
  | inl absent ↦ rw (remove_position, absent) (h, absent)
  | inr (p, e) ↦
      rw (remove_position, e)
        (let after = remove_if p.heap_index s in
          let (indexed, outside) = remove_if-IsIndexed user p s h e in
          (
            erase-IsIndexed user after indexed outside,
            lookup-erase user user after.positions ∙ rw (beq_refl user) refl,
          ))
]

pub refresh-IsIndexed :
    (provider : IndexProvider) (now : ℤ) (user : ℕ) (s : Scanner)
    → IsIndexed s
    → (after : Scanner) × (refresh provider now user s ≡ some after)
      × IsIndexed after
      × (length after.queue ≡ length s.queue)
unfolding refresh
refresh-IsIndexed provider now user s h = elim (Option-cases (lookup user s.positions)) [
  | inl absent ↦ (s, rw (refresh, absent) refl, h, refl)
  | inr (p, e) ↦
      let (hf, total) = calculate_health_factor-total p provider now in
      let q = record p { health_factor = some hf } in
      let same : q.heap_index ≡ index_of s.positions user = rw (index_of, e) refl in
      let wrote = record s { positions = insert user q s.positions } in
      let (indexed, size) =
        fix_if-IsIndexed user q wrote (write-IsIndexed user q s h same)
          (lookup-insert_self user q s.positions) in
      (fix_if p.heap_index wrote, rw (refresh, e, total) refl, indexed, size)
]

refresh_list-IsIndexed :
    (provider : IndexProvider) (now : ℤ) (m : Map ℕ UserPosition) (s : Scanner)
    → IsIndexed s
    → (after : Scanner) × (refresh_list provider now m s ≡ some after)
      × IsIndexed after
      × (length after.queue ≡ length s.queue)
unfolding refresh_list
refresh_list-IsIndexed provider now [] s h = (s, refl, h, refl)
refresh_list-IsIndexed provider now ((user, p) ∷ m) s h =
    let (s1, e, h1, l1) = refresh-IsIndexed provider now user s h in
    let (s2, f, h2, l2) = refresh_list-IsIndexed provider now m s1 h1 in (s2, rw e f, h2, l2 ∙ l1)

-- RefreshAll returns for every provider and time, keeps the queue and the remembered places
-- consistent and the length of the queue.
pub refresh_all-IsIndexed :
    (provider : IndexProvider) (now : ℤ) (s : Scanner)
    → IsIndexed s
    → (after : Scanner) × (refresh_all provider now s ≡ some after)
      × IsIndexed after
      × (length after.queue ≡ length s.queue)
refresh_all-IsIndexed provider now s = refresh_list-IsIndexed provider now s.positions s
