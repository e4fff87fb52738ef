-- ===== src/Scanner/Runs.antt =====
-- internal/liquidation/scanner/scanner.go: sequences of calls of the scanner.
use defi_demo.Base.{
  ℕ, ◌≡◌, refl, ap, sym, subst, ◌∙◌, Option, none, some, List, [], ◌∷◌, nat_eq, ◌==◌, arith, inl,
  inr, Bool-cases, Option-cases, if◌then◌else◌, ◌>>=◌,
}
use defi_demo.Base.Assoc.{Map, lookup, insert}
use defi_demo.Base.Int.{ℤ}
use defi_demo.Positions.{Scanner, UserPosition, new_scanner}
use defi_demo.Positions.Kept.{contents, contents-insert, placeless, Holds}
use defi_demo.Scanner.Contents.{
  View, fix_if-Holds, view_set, view_remove, view_known, set_position-Holds, remove_position-Holds,
}
use defi_demo.Scanner.Ordered.{
  IsQueue, set_position-IsQueue, remove_position-IsQueue, refresh_all-IsQueue, refresh-IsQueue,
}
use defi_demo.Scanner.Health.{calculate_health_factor-total}
use defi_demo.Scanner.{
  IndexProvider, calculate_health_factor, fix_if, set_position, remove_position, refresh,
  refresh_list, refresh_all,
}

some_injective : (s after : Scanner) → some s ≡ some after → s ≡ after
some_injective s after e = ap (λ (o : Option Scanner). elim o [ none ↦ s | some x ↦ x ]) e

-- A user that the map does not hold.
nothing :
    (v : ℕ) (view : View) (s : Scanner) → Holds view s → lookup v s.positions ≡ none → view v ≡ none
unfolding contents
nothing v view s h e = sym (h v) ∙ rw e refl

module _ (provider : IndexProvider) (now : ℤ) where
  abbrev pub renewed : Option UserPosition → Option UserPosition
  renewed none = none
  renewed (some p) = some (record p { health_factor = calculate_health_factor p provider now })

  abbrev pub view_refresh : View → View
  view_refresh view v = renewed (view v)

  abbrev view_one : ℕ → View → View
  view_one user view v = if user == v then renewed (view v) else view v

  abbrev view_list : Map ℕ UserPosition → View → View
  view_list [] view = view
  view_list ((user, p) ∷ m) view = view_list m (view_one user view)

  renewed_twice : (o : Option UserPosition) → renewed (renewed o) ≡ renewed o
  unfolding calculate_health_factor
  renewed_twice none = refl
  renewed_twice (some p) = refl

  -- A factor does not depend on the place in the queue.
  renewed_known :
      (p : UserPosition) (hf : ℤ)
      → calculate_health_factor p provider now ≡ some hf
      → some (placeless (record p { health_factor = some hf })) ≡ renewed (some (placeless p))
  unfolding calculate_health_factor
  renewed_known p hf e =
      ap (λ (o : Option ℤ). some (record p { health_factor = o; heap_index = none })) (sym e)

  unchanged :
      (user v : ℕ) (view : View) (s : Scanner)
      → Holds view s
      → lookup user s.positions ≡ none
      → view v ≡ view_one user view v
  unchanged user v view s h e = elim (Bool-cases (user == v)) [
    | inr other ↦ rw other refl
    | inl same ↦ rw (same, view_known user v none view s h e same) refl
  ]

  -- The user's position is written with a new health factor.
  written :
      (user : ℕ) (p : UserPosition) (hf : ℤ) (view : View) (s : Scanner)
      → Holds view s
      → lookup user s.positions ≡ some p
      → calculate_health_factor p provider now ≡ some hf
      → Holds (view_one user view) (
          fix_if p.heap_index (record s {
            positions = insert user (record p { health_factor = some hf }) s.positions;
          }))
  written user p hf view s h e total =
      let q = record p { health_factor = some hf } in
      fix_if-Holds (view_one user view) p.heap_index
        (record s { positions = insert user q s.positions })
        (λ v. contents-insert user v q s.positions ∙ (elim (Bool-cases (user == v)) [
          | inr other ↦ rw other (h v)
          | inl same ↦
              rw (same, view_known user v (some p) view s h e same) (renewed_known p hf total)
        ]))

  refresh-Holds :
      (user : ℕ) (view : View) (s after : Scanner)
      → Holds view s
      → refresh provider now user s ≡ some after
      → Holds (view_one user view) after
  unfolding refresh
  refresh-Holds user view s after h r = elim (Option-cases (lookup user s.positions)) [
    | inl absent ↦
        subst (Holds (view_one user view)) (some_injective s after (rw (refresh, absent) at r))
          (λ v. h v ∙ unchanged user v view s h absent)
    | inr (p, e) ↦
        let (hf, total) = calculate_health_factor-total p provider now in
        let wrote = record s {
          positions = insert user (record p { health_factor = some hf }) s.positions;
        } in
        subst (Holds (view_one user view))
          (some_injective (fix_if p.heap_index wrote) after (rw (refresh, e, total) at r))
          (written user p hf view s h e total)
  ]

  refresh_list-Holds :
      (m : Map ℕ UserPosition) (view : View) (s after : Scanner)
      → Holds view s
      → IsQueue s
      → refresh_list provider now m s ≡ some after
      → Holds (view_list m view) after
  unfolding refresh_list
  refresh_list-Holds [] view s after h v r = subst (Holds view) (some_injective s after r) h
  refresh_list-Holds ((user, p) ∷ m) view s after h v r =
      let (s1, e, v1) = refresh-IsQueue provider now user s v in
      refresh_list-Holds m (view_one user view) s1 after (refresh-Holds user view s s1 h e) v1
        (rw e at r)

  abbrev renewed_if : Option UserPosition → Option UserPosition → Option UserPosition
  renewed_if none o = o
  renewed_if (some p) o = renewed o

  -- Each position of the list is renewed, once or more often.
  view_list_lem :
      (m : Map ℕ UserPosition) (view : View) (v : ℕ)
      → view_list m view v ≡ renewed_if (lookup v m) (view v)
  unfolding lookup
  view_list_lem [] view v = refl
  view_list_lem ((user, p) ∷ m) view v = elim (Bool-cases (user == v)) [
    | inr other ↦
        rw other
          (view_list_lem m (view_one user view) v ∙ ap (renewed_if (lookup v m)) (rw other refl))
    | inl same ↦ view_list_lem m (view_one user view) v ∙ (elim (Option-cases (lookup v m)) [
      | inl absent ↦ rw (absent, same) refl
      | inr (q, e) ↦ rw (e, same) (renewed_twice (view v))
    ])
  ]

  -- RefreshAll on the map alone.
  pub refresh_all-Holds :
      (view : View) (s after : Scanner)
      → Holds view s
      → IsQueue s
      → refresh_all provider now s ≡ some after
      → Holds (view_refresh view) after
  refresh_all-Holds view s after h v r w =
      refresh_list-Holds s.positions view s after h v r w
      ∙ view_list_lem s.positions view w
      ∙ (elim (Option-cases (lookup w s.positions)) [
        | inl absent ↦ rw (absent, nothing w view s h absent) refl
        | inr (q, e) ↦ rw e refl
      ])

-- A call of one of the methods that change the scanner.
pub data Call : Type 0 where
  set : UserPosition → Call
  remove : ℕ → Call
  renew : IndexProvider → ℤ → Call

unfoldable pub perform : Call → Scanner → Option Scanner
perform (set p) s = some (set_position p s)
perform (remove user) s = some (remove_position user s)
perform (renew provider now) s = refresh_all provider now s

unfoldable pub run : List Call → Scanner → Option Scanner
run [] s = some s
run (c ∷ cs) s = do after ← perform c s; run cs after

-- The same calls on a map of positions.
unfoldable pub view_after : List Call → View → View
view_after [] view = view
view_after (set p ∷ cs) view = view_after cs (view_set p view)
view_after (remove user ∷ cs) view = view_after cs (view_remove user view)
view_after (renew provider now ∷ cs) view = view_after cs (view_refresh provider now view)

abbrev pub no_positions : View
no_positions v = none

abbrev Refines : Option Scanner → View → Type 0
Refines result view = (after : Scanner) × (result ≡ some after) × IsQueue after × Holds view after

run_from :
    (cs : List Call) (view : View) (s : Scanner)
    → IsQueue s
    → Holds view s
    → Refines (run cs s) (view_after cs view)
unfolding run view_after perform
run_from [] view s v h = (s, refl, v, h)
run_from (set p ∷ cs) view s v h =
    run_from cs (view_set p view) (set_position p s) (set_position-IsQueue p s v)
      (set_position-Holds p view s h)
run_from (remove user ∷ cs) view s v h =
    run_from cs (view_remove user view) (remove_position user s)
      (remove_position-IsQueue user s v).0 (remove_position-Holds user view s h)
run_from (renew provider now ∷ cs) view s v h =
    let (s1, e, v1) = refresh_all-IsQueue provider now s v in
    let (s2, f, v2, h2) =
      run_from cs (view_refresh provider now view) s1 v1
        (refresh_all-Holds provider now view s s1 h v e) in
    (s2, rw e f, v2, h2)

empty-IsQueue : IsQueue new_scanner
unfolding lookup
empty-IsQueue = record {
  indexed = λ i user. refl;
  ordered = λ c p q. absurd (omega arith);
  placed = λ v. inl refl;
}

-- Any sequence of calls of SetPosition, RemovePosition and RefreshAll on a new scanner returns, and
-- leaves a queue in order with every position in it, and the positions that the same calls leave in
-- a plain map: SetPosition writes, but a known position keeps its address and chain, RemovePosition
-- deletes, and RefreshAll gives each position the health factor of its collaterals and debts.
pub run_refines :
    (calls : List Call)
    → (after : Scanner) × (run calls new_scanner ≡ some after)
      × IsQueue after
      × Holds (view_after calls no_positions) after
unfolding lookup contents
run_refines calls = run_from calls no_positions new_scanner empty-IsQueue (λ v. refl)
