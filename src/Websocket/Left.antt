-- ===== src/Websocket/Left.antt =====
-- internal/api/websocket/hub.go: clients that leave a sound hub.
use defi_demo.Base.{
  ℕ, ◌≡◌, refl, ap, sym, subst, ◌∙◌, Bool, true, false, Option, none, some, [], ◌∷◌, String, nat_eq,
  string_eq, ◌==◌, if◌then◌else◌, arith, inl, inr, Bool-cases, All-map, ◌⊎◌,
}
use defi_demo.Base.Assoc.{Map, lookup, erase, Distinct, lookup-erase, beq_refl}
use defi_demo.Websocket.{Client, Hub, is_some, write_object, drop_client, remove_client}
use defi_demo.Websocket.Clients.{drop_client-absent, remove_client_known, remove_client_unknown}
use defi_demo.Websocket.Sound.{IsSound, IsWaiting, is_client}

pub then_branch {ℓ} : {A : Type ℓ} (b : Bool) (x y : A) → b ≡ true → (if b then x else y) ≡ x
then_branch b x y h = rw h refl

pub else_branch {ℓ} : {A : Type ℓ} (b : Bool) (x y : A) → b ≡ false → (if b then x else y) ≡ y
else_branch b x y h = rw h refl

drop_client-Distinct :
    (c : ℕ) (m : Map String (Map ℕ Bool)) → Distinct m → Distinct (drop_client c m)
unfolding drop_client
drop_client-Distinct c [] d = tt
drop_client-Distinct c ((t, subs) ∷ m) d =
    ground (arith, drop_client-absent c t m d.0, drop_client-Distinct c m d.1)

write_object-other :
    (c d : ℕ) (client : Client) (f : ℕ → Client)
    → (c == d) ≡ false
    → write_object c client f d ≡ f d
write_object-other c d client f other = rw other refl

-- Who is registered after `c` leaves.
left :
    (c d : ℕ) (m : Map ℕ Bool)
    → is_some (lookup d (erase c m)) ≡ (if c == d then false else is_some (lookup d m))
left c d m = ground (arith, lookup-erase c d m)

from_false : (b x : Bool) → (if b then false else x) ≡ true → (b ≡ false) × (x ≡ true)
from_false b x h = ground arith

unless_none :
    (b : Bool) (o : Option ℕ) (d : ℕ)
    → (if b then none else o) ≡ some d
    → (b ≡ false) × (o ≡ some d)
unless_none b o d h = ground arith

clash : (b x : Bool) → b ≡ true → b ≡ false → x ≡ false
clash b x h k = ground arith

-- A registered client is none that waits.
apart :
    (c d : ℕ) (m : Map ℕ Bool)
    → is_some (lookup c m) ≡ true
    → is_some (lookup d m) ≡ false
    → (c == d) ≡ false
apart c d m known unknown = elim (Bool-cases (c == d)) [
  | inr other ↦ other
  | inl same ↦
      ground
        (arith, subst (λ (x : ℕ). is_some (lookup x m) ≡ true) ((nat_eq.beq_iff c d).0 same) known)
]

-- What the index says after an address has been taken out.
index_left :
    (address user : String) (d : ℕ) (index : Map String ℕ)
    → lookup user (if address == "" then index else erase address index) ≡ some d
    → (lookup user index ≡ some d) × (((address == "") ≡ true) ⊎ ((address == user) ≡ false))
index_left address user d index e = elim (Bool-cases (address == "")) [
  | inl unnamed ↦ (
    sym (ap (λ (m : Map String ℕ). lookup user m) (then_branch _ index _ unnamed)) ∙ e,
    inl unnamed,
  )
  | inr named ↦
      let e1 : lookup user (erase address index) ≡ some d =
        sym (ap (λ (m : Map String ℕ). lookup user m) (else_branch _ index _ named)) ∙ e in
      let (other, before) =
        unless_none (address == user) (lookup user index) d
          (sym (lookup-erase address user index) ∙ e1) in
      (before, inr other)
]

-- The hub after a registered client is removed.
abbrev removed : ℕ → Hub → Hub
removed c h = record h {
  clients = erase c h.clients;
  user_index =
      if (h.objects c).user_address == ""
      then h.user_index
      else erase (h.objects c).user_address h.user_index;
  topic_subs = drop_client c h.topic_subs;
  objects = write_object c (record (h.objects c) { closed = true }) h.objects;
}

removed-object : (c d : ℕ) (h : Hub) → (c == d) ≡ false → (removed c h).objects d ≡ h.objects d
removed-object c d h = write_object-other c d (record (h.objects c) { closed = true }) h.objects

module _ (c : ℕ) (h : Hub) (v : IsSound h) (known : is_client h c ≡ true) where
  removed-clients_open :
      (d : ℕ) → is_client (removed c h) d ≡ true → ((removed c h).objects d).closed ≡ false
  removed-clients_open d k =
      let (other, before) = from_false (c == d) _ (sym (left c d h.clients) ∙ k) in
      ap (λ (x : Client). x.closed) (removed-object c d h other) ∙ v.clients_open d before

  removed-IsWaiting : (d : ℕ) → IsWaiting h d → IsWaiting (removed c h) d
  removed-IsWaiting d w =
      let other = apart c d h.clients known w.1 in
      (
        ap (λ (x : Client). x.closed) (removed-object c d h other) ∙ w.0,
        left c d h.clients ∙ rw other w.1,
      )

  -- The index after the removal does not lead to the client that left.
  removed-index :
      (user : String) (d : ℕ)
      → lookup user (removed c h).user_index ≡ some d
      → ((c == d) ≡ false) × (lookup user h.user_index ≡ some d)
  removed-index user d e =
      let (before, gone) = index_left (h.objects c).user_address user d h.user_index e in
      let (here, address, named) = v.indexed user d before in
      elim (Bool-cases (c == d)) [
        | inr other ↦ (other, before)
        | inl same ↦
            let at : (h.objects c).user_address ≡ user =
              ap (λ (x : ℕ). (h.objects x).user_address) ((nat_eq.beq_iff c d).0 same) ∙ address in
            (
              elim gone [
                | inl unnamed ↦ clash _ (c == d) unnamed (ap (λ (t : String). t == "") at ∙ named)
                | inr differs ↦
                    clash _ (c == d) (ap (λ (t : String). t == user) at ∙ beq_refl user) differs
              ],
              before,
            )
      ]

  removed-IsSound : IsSound (removed c h)
  removed-IsSound = record {
    clients_open = removed-clients_open;
    waiting =
        All-map (IsWaiting h) (IsWaiting (removed c h)) removed-IsWaiting h.queued_clients
          v.waiting;
    once = v.once;
    indexed = λ user d e.
        let (other, before) = removed-index user d e in
        let (here, address, named) = v.indexed user d before in
        (
          left c d h.clients ∙ rw other here,
          ap (λ (x : Client). x.user_address) (removed-object c d h other) ∙ address,
          named,
        );
    distinct = drop_client-Distinct c h.topic_subs v.distinct;
  }

pub remove_client-IsSound : (c : ℕ) (h : Hub) → IsSound h → IsSound (remove_client c h)
remove_client-IsSound c h v = elim (Bool-cases (is_client h c)) [
  | inl known ↦ subst IsSound (sym (remove_client_known c h known)) (removed-IsSound c h v known)
  | inr unknown ↦ subst IsSound (sym (remove_client_unknown c h unknown)) v
]
