-- ===== src/Scanner/Contents.antt =====
-- internal/liquidation/scanner/scanner.go: the map of positions that the scanner stands for, whatever
-- the order of its queue.
use defi_demo.Base.{
  ℕ, ◌-◌, ◌≡◌, refl, ap, sym, ◌∙◌, true, Option, none, some, nat_eq, ◌==◌, inl, inr, Bool-cases,
  Option-cases, get_elem?, length, if◌then◌else◌, nat_eqb,
}
use defi_demo.Base.Assoc.{Map, lookup, erase, lookup-erase}
use defi_demo.Positions.{Scanner, UserPosition, swap}
use defi_demo.Positions.Heap.{fix, push, push_back, pop_back, remove_at, sift}
use defi_demo.Positions.Kept.{
  contents, contents-insert, contents-set_index, placeless, forget, Holds, swap_users-Holds,
  sift_keeps, up_keeps, moved_keeps,
}
use defi_demo.Scanner.{updated, fix_if, set_position, remove_if, remove_position}

abbrev pub View : Type 0
View = ℕ → Option UserPosition

pub fix_if-Holds :
    (view : View) (i : Option ℕ) (s : Scanner) → Holds view s → Holds view (fix_if i s)
unfolding fix
fix_if-Holds view none s h = h
fix_if-Holds view (some i) s h =
    sift_keeps (Holds view) (swap_users-Holds view) i (length s.queue) s h

push-Holds : (view : View) (user : ℕ) (s : Scanner) → Holds view s → Holds view (push user s)
unfolding push push_back
push-Holds view user s h =
    up_keeps (Holds view) (swap_users-Holds view) (length s.queue) (push_back user s)
      (λ v. contents-set_index user v (some (length s.queue)) s.positions ∙ h v)

pop_back-Holds : (view : View) (s : Scanner) → Holds view s → Holds view (pop_back s)
unfolding pop_back
pop_back-Holds view s h = elim (Option-cases (get_elem? s.queue (length s.queue - 1))) [
  | inl empty ↦ rw (pop_back, empty) h
  | inr (user, e) ↦ rw (pop_back, e) (λ v. contents-set_index user v none s.positions ∙ h v)
]

remove_if-Holds :
    (view : View) (i : Option ℕ) (s : Scanner) → Holds view s → Holds view (remove_if i s)
unfolding remove_at
remove_if-Holds view none s h = h
remove_if-Holds view (some i) s h =
    let n = length s.queue - 1 in
    elim (Bool-cases (nat_eqb n i)) [
      | inl same ↦ rw (remove_at, same) (pop_back-Holds view s h)
      | inr other ↦
          rw (remove_at, other)
            (pop_back-Holds view (sift i n (swap i n s))
              (moved_keeps (Holds view) (swap_users-Holds view) i n n s h))
    ]

-- What SetPosition writes: a known position keeps its address and chain, and takes over the rest.
abbrev pub merged : UserPosition → Option UserPosition → Option UserPosition
merged p none = some (placeless p)
merged p (some old) = some (record {
  user_address = old.user_address;
  chain_id = old.chain_id;
  collaterals = p.collaterals;
  debts = p.debts;
  health_factor = p.health_factor;
  total_collateral_usd = p.total_collateral_usd;
  total_debt_usd = p.total_debt_usd;
  heap_index = none;
})

abbrev pub view_set : UserPosition → View → View
view_set p view v = if p.user_address == v then merged p (view v) else view v

abbrev pub view_remove : ℕ → View → View
view_remove user view v = if user == v then none else view v

-- What the map says of one user.
pub view_known :
    (user v : ℕ) (o : Option UserPosition) (view : View) (s : Scanner)
    → Holds view s
    → lookup user s.positions ≡ o
    → (user == v) ≡ true
    → view v ≡ forget o
unfolding contents
view_known user v o view s h e same =
    sym (h v)
    ∙ ap (λ (w : ℕ). forget (lookup w s.positions)) (sym ((nat_eq.beq_iff user v).0 same))
    ∙ ap forget e

fresh_case :
    (p : UserPosition) (v : ℕ) (view : View) (s : Scanner)
    → Holds view s
    → lookup p.user_address s.positions ≡ none
    → (if p.user_address == v then some (placeless p) else contents s.positions v)
      ≡ view_set p view v
fresh_case p v view s h e = elim (Bool-cases (p.user_address == v)) [
  | inl same ↦ rw (same, view_known p.user_address v none view s h e same) refl
  | inr other ↦ rw other (h v)
]

known_case :
    (p : UserPosition) (v : ℕ) (old : UserPosition) (view : View) (s : Scanner)
    → Holds view s
    → lookup p.user_address s.positions ≡ some old
    → (if p.user_address == v then some (placeless (updated old p)) else contents s.positions v)
      ≡ view_set p view v
known_case p v old view s h e = elim (Bool-cases (p.user_address == v)) [
  | inl same ↦ rw (same, view_known p.user_address v (some old) view s h e same) refl
  | inr other ↦ rw other (h v)
]

absent_case :
    (user v : ℕ) (view : View) (s : Scanner)
    → Holds view s
    → lookup user s.positions ≡ none
    → contents s.positions v ≡ view_remove user view v
absent_case user v view s h e = elim (Bool-cases (user == v)) [
  | inl same ↦ rw same (h v ∙ view_known user v none view s h e same)
  | inr other ↦ rw other (h v)
]

contents-erase :
    (user v : ℕ) (m : Map ℕ UserPosition)
    → contents (erase user m) v ≡ (if user == v then none else contents m v)
unfolding contents
contents-erase user v m = elim (Bool-cases (user == v)) [
  | inl same ↦ rw (lookup-erase, same) refl
  | inr other ↦ rw (lookup-erase, other) refl
]

-- SetPosition on the map alone.
pub set_position-Holds :
    (p : UserPosition) (view : View) (s : Scanner)
    → Holds view s
    → Holds (view_set p view) (set_position p s)
unfolding set_position
set_position-Holds p view s h = elim (Option-cases (lookup p.user_address s.positions)) [
  | inl fresh ↦
      rw (set_position, fresh)
        (push-Holds (view_set p view) p.user_address _ (λ v.
          contents-insert p.user_address v (record p { heap_index = none }) s.positions
          ∙ fresh_case p v view s h fresh))
  | inr (old, e) ↦
      rw (set_position, e)
        (fix_if-Holds (view_set p view) old.heap_index _ (λ v.
          contents-insert p.user_address v (updated old p) s.positions
          ∙ known_case p v old view s h e))
]

-- RemovePosition on the map alone.
pub remove_position-Holds :
    (user : ℕ) (view : View) (s : Scanner)
    → Holds view s
    → Holds (view_remove user view) (remove_position user s)
unfolding remove_position
remove_position-Holds user view s h = elim (Option-cases (lookup user s.positions)) [
  | inl absent ↦ rw (remove_position, absent) (λ v. absent_case user v view s h absent)
  | inr (p, e) ↦
      rw (remove_position, e)
        (λ v.
          contents-erase user v (remove_if p.heap_index s).positions
          ∙ ap (λ (o : Option UserPosition). if user == v then none else o)
              (remove_if-Holds view p.heap_index s h v))
]
